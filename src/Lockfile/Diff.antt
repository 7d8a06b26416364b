-- ===== src/Lockfile/Diff.antt =====
-- lockfile/src/diff.rs: what changes between two lockfiles.
pub mod Entries
pub mod Pairs
pub mod Renewal
pub mod Recording
use install_scope.Common.{
  ℕ, Bool, true, false, not, ◌&&◌, Option, none, some, List, [], ◌∷◌, ◌++◌, filter, any, map,
  if◌then◌else◌, is_some, compare,
}
use install_scope.Common.Text.{Text, text, text_eq}
use install_scope.Common.Text.Order.{text_cmp}
use install_scope.Common.Compare.{Comparison, lexicographic, compare_by, reverse_by}
use install_scope.Common.Sort.{sort_by}
use install_scope.Common.Ordered.{lookup, put, or_insert, add, keys}
use install_scope.Lockfile.Model.{
  Source, remote, git, directory, workspace, unknown, Groups, Package, Identity, Lockfile,
  integrity, identity, identity_cmp, label, kind, display_groups, external, ecosystem_eq,
}

pub data Change : Type 0 where
  added : (p : Package) → Change
  removed : (p : Package) → Change
  version_changed : (name : Text) (before after : Package) → Change
  integrity_changed : (name version : Text) (before after : Option Text) → Change
  source_changed : (name version : Text) (before after : Source) → Change
  groups_changed : (name version : Text) (before after : Groups) → Change

abbrev pub change_name : Change → Text
change_name (added p) = p.name
change_name (removed p) = p.name
change_name (version_changed name _ _) = name
change_name (integrity_changed name _ _ _) = name
change_name (source_changed name _ _ _) = name
change_name (groups_changed name _ _ _) = name

abbrev pub introduces_code : Change → Bool
introduces_code (added _) = true
introduces_code (version_changed _ _ _) = true
introduces_code (integrity_changed _ _ _ _) = true
introduces_code (source_changed _ _ _ _) = true
introduces_code (removed _) = false
introduces_code (groups_changed _ _ _ _) = false

abbrev pub recordable : Change → Option Identity
recordable (added p) = some (identity p)
recordable (version_changed _ _ after) = some (identity after)
recordable (integrity_changed name version _ _) = some (record { name = name; version = version })
recordable (source_changed name version _ _) = some (record { name = name; version = version })
recordable (removed _) = none
recordable (groups_changed _ _ _ _) = none

unfoldable pub summary : Change → Text
summary (added p) = text "added " ++ label p
summary (removed p) = text "removed " ++ label p
summary (version_changed name before after) =
    name ++ text " " ++ before.version ++ text " to " ++ after.version
summary (integrity_changed name version _ _) =
    name ++ text "@" ++ version ++ text " same version, different tarball hash"
summary (source_changed name version before after) =
    name
    ++ text "@"
    ++ version
    ++ text " now comes from "
    ++ kind after
    ++ text " instead of "
    ++ kind before
summary (groups_changed name version before after) =
    name
    ++ text "@"
    ++ version
    ++ text " moved from "
    ++ display_groups before
    ++ text " to "
    ++ display_groups after

pub record LockfileDiff : Type 0 where
  pub changes : List Change
  pub ecosystem_changed : Bool

abbrev pub is_empty : LockfileDiff → Bool
is_empty d = elim d.changes [ [] ↦ true | _ ∷ _ ↦ false ]

abbrev pub code_introducing : LockfileDiff → List Change
code_introducing d = filter introduces_code d.changes

abbrev pub should_record : LockfileDiff → Bool
should_record d = any introduces_code d.changes

abbrev pub note_identity : Option Identity → List Identity → List Identity
note_identity none seen = seen
note_identity (some i) seen = add identity_cmp i seen

-- The loop of `LockfileDiff::recordable`, over the identities seen so far.
unfoldable pub recordables : List Change → List Identity → List Identity
recordables [] seen = seen
recordables (c ∷ cs) seen = recordables cs (note_identity (recordable c) seen)

abbrev pub recordable_identities : LockfileDiff → List Identity
recordable_identities d = recordables d.changes []

-- The loop of `index`: the first entry of an identity stays.
unfoldable pub index_from : List Package → List (Identity × Package) → List (Identity × Package)
index_from [] out = out
index_from (p ∷ ps) out = index_from ps (or_insert identity_cmp (identity p) p out)

unfoldable pub index : Lockfile → List (Identity × Package)
index l = index_from (external l) []

-- An address that one side lacks is no difference.
abbrev pub same_url : Option Text → Option Text → Bool
same_url (some old) (some new) = text_eq old new
same_url _ _ = true

unfoldable pub same_source_kind : Source → Source → Bool
same_source_kind (remote old _) (remote new _) = same_url old new
same_source_kind (git old) (git new) = text_eq old new
same_source_kind (directory old) (directory new) = text_eq old new
same_source_kind (workspace old) (workspace new) = text_eq old new
same_source_kind (unknown old) (unknown new) = text_eq old new
same_source_kind _ _ = false

-- Hashes are compared only where both sides have one.
abbrev pub integrity_changes : Identity → Option Text → Option Text → List Change
integrity_changes i (some old) (some new) =
    if not (text_eq old new)
    then integrity_changed i.name i.version (some old) (some new) ∷ []
    else []
integrity_changes i _ _ = []

abbrev bool_eq : Bool → Bool → Bool
bool_eq true b = b
bool_eq false b = not b

abbrev pub groups_eq : Groups → Groups → Bool
groups_eq g h = bool_eq g.dev h.dev && bool_eq g.optional h.optional

unfoldable pub compare_same_identity : Identity → Package → Package → List Change
unfolding same_source_kind
compare_same_identity i before after =
    integrity_changes i (integrity before.source) (integrity after.source)
    ++ ((if not (same_source_kind before.source after.source)
          then source_changed i.name i.version before.source after.source ∷ []
          else [])
        ++ (if not (groups_eq before.groups after.groups)
            then groups_changed i.name i.version before.groups after.groups ∷ []
            else []))

abbrev pub compared : Identity → Option Package → Package → List Change
compared i none after = []
compared i (some before) after = compare_same_identity i before after

-- The first loop of `diff`, over the new entries.
unfoldable pub same_identities : List (Identity × Package) → List (Identity × Package) → List Change
same_identities old [] = []
same_identities old ((i, p) ∷ entries) =
    compared i (lookup identity_cmp i old) p ++ same_identities old entries

-- The packages of the entries whose identity the other side lacks.
unfoldable pub only_in : List (Identity × Package) → List (Identity × Package) → List Package
only_in other [] = []
only_in other ((i, p) ∷ entries) =
    let rest = only_in other entries in
    if is_some (lookup identity_cmp i other) then rest else p ∷ rest

abbrev pub or_empty : Option (List Package) → List Package
or_empty none = []
or_empty (some ps) = ps

-- `entry(name).or_default().push(package)` for each p
unfoldable pub by_name : List Package → List (Text × List Package) → List (Text × List Package)
by_name [] out = out
by_name (p ∷ ps) out =
    by_name ps (put text_cmp p.name (or_empty (lookup text_cmp p.name out) ++ p ∷ []) out)

-- The entries of one name: pairs as far as both sides go, then what one side has over.
unfoldable pub pair_up : Text → List Package → List Package → List Change
pair_up name (new ∷ news) (old ∷ olds) = version_changed name old new ∷ pair_up name news olds
pair_up name news [] = map added news
pair_up name [] olds = map removed olds

abbrev pub version_cmp : Comparison Package
version_cmp = compare_by (λ p. p.version) text_cmp

abbrev pub side : Text → List (Text × List Package) → List Package
side name groups = sort_by version_cmp (or_empty (lookup text_cmp name groups))

-- The loop over the names.
unfoldable pub pair_names :
    List (Text × List Package) → List (Text × List Package) → List Text → List Change
pair_names by_added by_removed [] = []
pair_names by_added by_removed (name ∷ names) =
    pair_up name (side name by_added) (side name by_removed) ++ pair_names by_added by_removed names

unfoldable pub add_all : List Text → List Text → List Text
add_all [] set = set
add_all (name ∷ names) set = add_all names (add text_cmp name set)

unfoldable pub pair_by_name : List Package → List Package → List Change
unfolding by_name pair_names add_all pair_up
pair_by_name added_packages removed_packages =
    let by_added = by_name added_packages [] in
    let by_removed = by_name removed_packages [] in
    pair_names by_added by_removed (add_all (keys by_added ++ keys by_removed) [])

abbrev bool_rank : Bool → ℕ
bool_rank false = 0
bool_rank true = 1

abbrev pub change_cmp : Comparison Change
change_cmp =
    lexicographic
      (lexicographic (reverse_by (λ c. bool_rank (introduces_code c)) compare)
        (compare_by change_name text_cmp))
      (compare_by summary text_cmp)

unfoldable pub diff : Lockfile → Lockfile → LockfileDiff
unfolding index same_identities only_in pair_by_name
diff before after =
    let old_entries = index before in
    let new_entries = index after in
    record {
      changes = sort_by change_cmp (
          same_identities old_entries new_entries
          ++ pair_by_name (only_in old_entries new_entries) (only_in new_entries old_entries));
      ecosystem_changed = not (ecosystem_eq before.ecosystem after.ecosystem);
    }
