-- ===== src/Registry/Behavior/Keys.antt =====
-- registry/src/behavior.rs: the derived order of behaviours: the constructor, then the fields in turn.
use install_scope.Common.{
  ℕ, ◌≡◌, refl, ap, ap₂, sym, ◌∙◌, ◌==◌, if◌then◌else◌, Bool, true, false, [], Ordering, compare,
  arith,
}
use install_scope.Common.Text.{Text}
use install_scope.Common.Text.Order.{text_cmp}
use install_scope.Common.Compare.{Comparison, and_then, text_cmp-eq, text_cmp_refl}
use install_scope.Common.Ordered.{IsExact}
use install_scope.Core.Events.{
  WriteKind, open_file, write, create, truncate, mkdir, rename, delete, symlink, hardlink, chmod,
  chown,
}
use install_scope.Core.Zones.{Zone, project, cache, home, tmp, declared}
use install_scope.Registry.Behavior.{
  Behavior, wrote, wrote_outside, wrote_runtime, wrote_unresolved, read_credential, resolved,
  connected, connected_unix, spawned, spawned_shell_pipeline,
}

abbrev pub kind_rank : WriteKind → ℕ
kind_rank open_file = 0
kind_rank write = 1
kind_rank create = 2
kind_rank truncate = 3
kind_rank mkdir = 4
kind_rank rename = 5
kind_rank delete = 6
kind_rank symlink = 7
kind_rank hardlink = 8
kind_rank chmod = 9
kind_rank chown = 10

abbrev pub zone_rank : Zone → ℕ
zone_rank project = 0
zone_rank cache = 1
zone_rank home = 2
zone_rank tmp = 3
zone_rank declared = 4

abbrev flag_rank : Bool → ℕ
flag_rank false = 0
flag_rank true = 1

-- The constructor, a field before the text, the text, and two fields after it.
pub record BehaviorKey : Type 0 where
  pub variant : ℕ
  pub first : ℕ
  pub name : Text
  pub second : ℕ
  pub third : ℕ

abbrev behavior_key : ℕ → ℕ → Text → ℕ → ℕ → BehaviorKey
behavior_key variant first name second third = record {
  variant = variant;
  first = first;
  name = name;
  second = second;
  third = third;
}

abbrev pub key_of : Behavior → BehaviorKey
key_of (wrote zone relative kind) = behavior_key 0 (zone_rank zone) relative (kind_rank kind) 0
key_of (wrote_outside path kind) = behavior_key 1 0 path (kind_rank kind) 0
key_of (wrote_runtime path kind) = behavior_key 2 0 path (kind_rank kind) 0
key_of (wrote_unresolved raw kind) = behavior_key 3 0 raw (kind_rank kind) 0
key_of (read_credential path) = behavior_key 4 0 path 0 0
key_of (resolved qname) = behavior_key 5 0 qname 0 0
key_of (connected port loopback is_private) =
    behavior_key 6 port [] (flag_rank loopback) (flag_rank is_private)
key_of (connected_unix path) = behavior_key 7 0 path 0 0
key_of (spawned program) = behavior_key 8 0 program 0 0
key_of (spawned_shell_pipeline tool) = behavior_key 9 0 tool 0 0

abbrev pub behavior_cmp : Comparison Behavior
behavior_cmp a b =
    let k = key_of a in
    let l = key_of b in
    and_then (compare k.variant l.variant) (
      and_then (compare k.first l.first) (
        and_then (text_cmp k.name l.name)
          (and_then (compare k.second l.second) (compare k.third l.third))))

abbrev kind_at : ℕ → WriteKind
kind_at n =
    if n == 0
    then open_file
    else if n == 1
    then write
    else if n == 2
    then create
    else if n == 3
    then truncate
    else if n == 4
    then mkdir
    else if n == 5
    then rename
    else if n == 6
    then delete
    else if n == 7
    then symlink
    else if n == 8
    then hardlink
    else if n == 9
    then chmod
    else chown

abbrev zone_at : ℕ → Zone
zone_at n =
    if n == 0
    then project
    else if n == 1
    then cache
    else if n == 2
    then home
    else if n == 3
    then tmp
    else declared

kind_at-kind_rank : (k : WriteKind) → kind_at (kind_rank k) ≡ k
kind_at-kind_rank open_file = refl
kind_at-kind_rank write = refl
kind_at-kind_rank create = refl
kind_at-kind_rank truncate = refl
kind_at-kind_rank mkdir = refl
kind_at-kind_rank rename = refl
kind_at-kind_rank delete = refl
kind_at-kind_rank symlink = refl
kind_at-kind_rank hardlink = refl
kind_at-kind_rank chmod = refl
kind_at-kind_rank chown = refl

zone_at-zone_rank : (z : Zone) → zone_at (zone_rank z) ≡ z
zone_at-zone_rank project = refl
zone_at-zone_rank cache = refl
zone_at-zone_rank home = refl
zone_at-zone_rank tmp = refl
zone_at-zone_rank declared = refl

flag_at-flag_rank : (b : Bool) → (flag_rank b == 1) ≡ b
flag_at-flag_rank true = refl
flag_at-flag_rank false = refl

abbrev behavior_at : BehaviorKey → Behavior
behavior_at k =
    if k.variant == 0
    then wrote (zone_at k.first) k.name (kind_at k.second)
    else if k.variant == 1
    then wrote_outside k.name (kind_at k.second)
    else if k.variant == 2
    then wrote_runtime k.name (kind_at k.second)
    else if k.variant == 3
    then wrote_unresolved k.name (kind_at k.second)
    else if k.variant == 4
    then read_credential k.name
    else if k.variant == 5
    then resolved k.name
    else if k.variant == 6
    then connected k.first (k.second == 1) (k.third == 1)
    else if k.variant == 7
    then connected_unix k.name
    else if k.variant == 8
    then spawned k.name
    else spawned_shell_pipeline k.name

behavior_at-key_of : (b : Behavior) → behavior_at (key_of b) ≡ b
behavior_at-key_of (wrote z r k) =
    ap₂ (λ zone kind. wrote zone r kind) (zone_at-zone_rank z) (kind_at-kind_rank k)
behavior_at-key_of (wrote_outside p k) = ap (wrote_outside p) (kind_at-kind_rank k)
behavior_at-key_of (wrote_runtime p k) = ap (wrote_runtime p) (kind_at-kind_rank k)
behavior_at-key_of (wrote_unresolved p k) = ap (wrote_unresolved p) (kind_at-kind_rank k)
behavior_at-key_of (read_credential p) = refl
behavior_at-key_of (resolved q) = refl
behavior_at-key_of (connected port l p) =
    ap₂ (connected port) (flag_at-flag_rank l) (flag_at-flag_rank p)
behavior_at-key_of (connected_unix p) = refl
behavior_at-key_of (spawned p) = refl
behavior_at-key_of (spawned_shell_pipeline t) = refl

abbrev fields_cmp : Comparison BehaviorKey
fields_cmp k l = and_then (compare k.variant l.variant) (
    and_then (compare k.first l.first) (
      and_then (text_cmp k.name l.name)
        (and_then (compare k.second l.second) (compare k.third l.third))))

fields_cmp-eq : (k l : BehaviorKey) → fields_cmp k l ≡ Ordering.eq → k ≡ l
fields_cmp-eq k l h = ground (arith, text_cmp-eq k.name l.name)

-- Only equal behaviours compare equal.
pub behavior_cmp-IsExact : IsExact behavior_cmp
behavior_cmp-IsExact = record {
  same = λ b. ground (arith, text_cmp_refl (key_of b).name);
  exact = λ a b h.
      sym (behavior_at-key_of a)
      ∙ ap behavior_at (fields_cmp-eq (key_of a) (key_of b) h)
      ∙ behavior_at-key_of b;
}
