-- ===== src/Registry/Behavior/Outside.antt =====
-- registry/src/behavior.rs: a profile holds what the events yield, one by one; in particular it holds a
-- write outside the zones exactly if one was recorded.
use install_scope.Common.{
  ◌≡◌, ◌≢◌, refl, ap, ap₂, ◌↔◌, ◌⊎◌, inl, inr, false, Option, none, some, List, [], ◌∷◌, ◌++◌,
  arith, if◌then◌else◌, Any, Any-map, Any-cons_iff, Any-append_iff, Bool-cases, iff_trans,
}
use mathlib.Core.Path.{subst}
use install_scope.Common.Text.{Text}
use install_scope.Common.Ordered.{add_iff}
use install_scope.Core.Events.{
  WriteKind, Event, Payload, session_start, fs_write, fs_read, net_connect, dns_query, proc_spawn,
  heartbeat, session_end, NetConnect, Zones, failed_known,
}
use install_scope.Core.Zones.{Placement, inside, outside, unresolvable, runtime, placement_of}
use install_scope.Core.Catalog.{to_ascii_lowercase}
use install_scope.Registry.Behavior.{
  Behavior, wrote_outside, read_credential, resolved, Placed, placed_inside, placed_outside,
  placed_runtime, placed_unresolvable, placed_at, into_display_path, place, write_behavior,
  connect_behavior, shell_pipeline_tool,
}
use install_scope.Registry.Behavior.Keys.{behavior_cmp-IsExact}
use install_scope.Registry.Behavior.Profiles.{
  Reduced, note_behavior, note_option, note_placed, program_of, pipeline_of, reduce, reduce_all,
  recorded_zones, profile_of,
}

abbrev listed : Option Behavior → List Behavior
listed none = []
listed (some b) = b ∷ []

-- The behaviours of one event, whatever came before.
abbrev pub yields : Zones → Payload → List Behavior
yields zones (fs_write w) =
    if failed_known w.outcome then [] else write_behavior (place w.target zones) w.kind ∷ []
yields zones (fs_read read) = read_credential (into_display_path (place read.target zones)) ∷ []
yields zones (net_connect connect) = listed (connect_behavior connect)
yields zones (dns_query query) = resolved (to_ascii_lowercase query.qname) ∷ []
yields zones (proc_spawn spawn) =
    listed (program_of spawn.bin) ++ listed (pipeline_of (shell_pipeline_tool spawn.argv))
yields zones (session_start _) = []
yields zones (session_end _) = []
yields zones (heartbeat _) = []

abbrev pub Holds : Behavior → List Behavior → Type 0
Holds b = Any (λ x. x ≡ b)

note_placed-behaviors : (p : Placed) (r : Reduced) → (note_placed p r).behaviors ≡ r.behaviors
note_placed-behaviors (placed_inside _ _) r = refl
note_placed-behaviors (placed_outside _) r = refl
note_placed-behaviors (placed_runtime _) r = refl
note_placed-behaviors (placed_unresolvable _) r = refl

none_iff {ℓ} : {A : Type ℓ} (b : Behavior) → A ↔ (Holds b [] ⊎ A)
none_iff b = (inr, λ h. elim h [ inl k ↦ elim k [ ] | inr k ↦ k ])

one_iff {ℓ} : {A : Type ℓ} (b x : Behavior) → ((x ≡ b) ⊎ A) ↔ (Holds b (x ∷ []) ⊎ A)
one_iff b x = (
  λ h. elim h [ inl p ↦ inl (Any.here p) | inr k ↦ inr k ],
  λ h. elim h [
    | inl k ↦ elim (Any-cons_iff.0 k) [ inl p ↦ inl p | inr q ↦ elim q [ ] ]
    | inr k ↦ inr k
  ],
)

note_option_iff :
    (b : Behavior) (o : Option Behavior) (r : Reduced)
    → Holds b (note_option o r).behaviors ↔ (Holds b (listed o) ⊎ Holds b r.behaviors)
note_option_iff b none r = none_iff b
note_option_iff b (some x) r =
    iff_trans (add_iff behavior_cmp-IsExact x b r.behaviors) (one_iff b x)

note_placed_iff :
    (b x : Behavior) (p : Placed) (r : Reduced)
    → Holds b (note_behavior x (note_placed p r)).behaviors
      ↔ (Holds b (x ∷ []) ⊎ Holds b r.behaviors)
note_placed_iff b x p r =
    subst
      (λ old.
        Holds b (note_behavior x (note_placed p r)).behaviors ↔ (Holds b (x ∷ []) ⊎ Holds b old))
      (note_placed-behaviors p r) (note_option_iff b (some x) (note_placed p r))

both_iff :
    (b : Behavior) (o q : Option Behavior) (r : Reduced)
    → Holds b (note_option q (note_option o r)).behaviors
      ↔ (Holds b (listed o ++ listed q) ⊎ Holds b r.behaviors)
both_iff b none q r = note_option_iff b q r
both_iff b (some x) q r =
    let last = note_option_iff b q (note_behavior x r) in
    let first = note_option_iff b (some x) r in
    (
      λ h. elim (last.0 h) [
        | inl k ↦ inl (Any.there k)
        | inr k ↦ elim (first.0 k) [
          | inl p ↦ elim (Any-cons_iff.0 p) [ inl e ↦ inl (Any.here e) | inr n ↦ elim n [ ] ]
          | inr old ↦ inr old
        ]
      ],
      λ h. elim h [
        | inl k ↦ elim (Any-cons_iff.0 k) [
          | inl e ↦ last.1 (inr (first.1 (inl (Any.here e))))
          | inr n ↦ last.1 (inl n)
        ]
        | inr old ↦ last.1 (inr (first.1 (inr old)))
      ],
    )

reduce_iff :
    (zones : Zones) (b : Behavior) (p : Payload) (r : Reduced)
    → Holds b (reduce zones p r).behaviors ↔ (Holds b (yields zones p) ⊎ Holds b r.behaviors)
unfolding reduce
reduce_iff zones b (fs_write w) r = elim (Bool-cases (failed_known w.outcome)) [
  | inl failed ↦ rw failed (none_iff b)
  | inr passed ↦
      rw passed
        (note_placed_iff b (write_behavior (place w.target zones) w.kind) (place w.target zones) r)
]
reduce_iff zones b (fs_read read) r = note_placed_iff b _ (place read.target zones) r
reduce_iff zones b (net_connect connect) r = note_option_iff b (connect_behavior connect) r
reduce_iff zones b (dns_query query) r =
    note_option_iff b (some (resolved (to_ascii_lowercase query.qname))) r
reduce_iff zones b (proc_spawn spawn) r =
    both_iff b (program_of spawn.bin) (pipeline_of (shell_pipeline_tool spawn.argv)) r
reduce_iff zones b (session_start _) r = none_iff b
reduce_iff zones b (session_end _) r = none_iff b
reduce_iff zones b (heartbeat _) r = none_iff b

reduce_all_iff :
    (zones : Zones) (b : Behavior) (events : List Event) (r : Reduced)
    → Holds b (reduce_all zones events r).behaviors
      ↔ (Any (λ e. Holds b (yields zones e.payload)) events ⊎ Holds b r.behaviors)
unfolding reduce_all
reduce_all_iff zones b [] r = (inr, λ h. elim h [ inl k ↦ elim k [ ] | inr k ↦ k ])
reduce_all_iff zones b (e ∷ events) r =
    let later = reduce_all_iff zones b events (reduce zones e.payload r) in
    let now = reduce_iff zones b e.payload r in
    (
      λ h. elim (later.0 h) [
        | inl k ↦ inl (Any.there k)
        | inr k ↦ elim (now.0 k) [ inl y ↦ inl (Any.here y) | inr old ↦ inr old ]
      ],
      λ h. elim h [
        | inl k ↦ elim (Any-cons_iff.0 k) [
          | inl y ↦ later.1 (inr (now.1 (inl y)))
          | inr n ↦ later.1 (inl n)
        ]
        | inr old ↦ later.1 (inr (now.1 (inr old)))
      ],
    )

-- For any recording and behaviour: the profile holds it exactly if some event yields it, whenever and
-- by whatever process.
pub profile_of-behaviors_iff :
    (events : List Event) (b : Behavior)
    → Holds b (profile_of events).behaviors
      ↔ Any (λ e. Holds b (yields (recorded_zones events) e.payload)) events
unfolding profile_of
profile_of-behaviors_iff events b =
    iff_trans (reduce_all_iff (recorded_zones events) b events _)
      (λ h. elim h [ inl k ↦ k | inr k ↦ elim k [ ] ], λ h. inl h)

-- A write that was not known to fail, to a place that is provably outside.
abbrev pub WritesOutside : Zones → Text → WriteKind → Payload → Type 0
WritesOutside zones path kind (fs_write w) =
    (failed_known w.outcome ≡ false)
    × (placement_of w.target zones ≡ outside)
    × (w.target.path ≡ path)
    × (w.kind ≡ kind)
WritesOutside zones path kind _ = ⊥

write_behavior-eq-wrote_outside :
    (o : Placement) (at path : Text) (zones : Zones) (k kind : WriteKind)
    → (write_behavior (placed_at o at zones) k ≡ wrote_outside path kind)
      ↔ ((o ≡ outside) × (at ≡ path) × (k ≡ kind))
write_behavior-eq-wrote_outside outside at path zones k kind =
    (λ e. (refl, cc, cc), λ (_, e, f). ap₂ wrote_outside e f)
write_behavior-eq-wrote_outside (inside zone) at path zones k kind =
    (λ e. absurd (ground arith), λ (e, _, _). absurd (ground arith))
write_behavior-eq-wrote_outside runtime at path zones k kind =
    (λ e. absurd (ground arith), λ (e, _, _). absurd (ground arith))
write_behavior-eq-wrote_outside unresolvable at path zones k kind =
    (λ e. absurd (ground arith), λ (e, _, _). absurd (ground arith))

single : {b x : Behavior} → Holds b (x ∷ []) → x ≡ b
single h = elim (Any-cons_iff.0 h) [ inl e ↦ e | inr k ↦ elim k [ ] ]

listed-eq : {b : Behavior} (o : Option Behavior) → Holds b (listed o) → o ≡ some b
listed-eq none h = elim h [ ]
listed-eq (some x) h = ap some (single h)

connect_behavior-ne-wrote_outside :
    (c : NetConnect) (path : Text) (kind : WriteKind)
    → connect_behavior c ≢ some (wrote_outside path kind)
connect_behavior-ne-wrote_outside c path kind h = ground arith

program_of-ne-wrote_outside :
    (bin : Option Text) (path : Text) (kind : WriteKind)
    → program_of bin ≢ some (wrote_outside path kind)
program_of-ne-wrote_outside none path kind h = ground arith
program_of-ne-wrote_outside (some bin) path kind h = ground arith

pipeline_of-ne-wrote_outside :
    (tool : Option Text) (path : Text) (kind : WriteKind)
    → pipeline_of tool ≢ some (wrote_outside path kind)
pipeline_of-ne-wrote_outside none path kind h = ground arith
pipeline_of-ne-wrote_outside (some tool) path kind h = ground arith

yields_outside_iff :
    (zones : Zones) (path : Text) (kind : WriteKind) (p : Payload)
    → Holds (wrote_outside path kind) (yields zones p) ↔ WritesOutside zones path kind p
unfolding place
yields_outside_iff zones path kind (fs_write w) =
    let is =
      write_behavior-eq-wrote_outside (placement_of w.target zones) w.target.path path zones w.kind
        kind in
    elim (Bool-cases (failed_known w.outcome)) [
      | inl failed ↦ rw failed (λ h. elim h [ ], λ (e, _, _, _). absurd (ground arith))
      | inr passed ↦ rw passed (
        λ h. let (o, e, k) = is.0 (single h) in (refl, o, e, k),
        λ (_, o, e, k). Any.here (is.1 (o, e, k)),
      )
    ]
yields_outside_iff zones path kind (fs_read read) =
    (λ h. absurd (ground (arith, single h)), λ h. absurd h)
yields_outside_iff zones path kind (net_connect c) =
    (λ h. connect_behavior-ne-wrote_outside c path kind (listed-eq _ h), λ h. absurd h)
yields_outside_iff zones path kind (dns_query query) =
    (λ h. absurd (ground (arith, single h)), λ h. absurd h)
yields_outside_iff zones path kind (proc_spawn spawn) = (
  λ h. elim ((Any-append_iff (listed (program_of spawn.bin))).0 h) [
    | inl k ↦ program_of-ne-wrote_outside spawn.bin path kind (listed-eq _ k)
    | inr k ↦
        pipeline_of-ne-wrote_outside (shell_pipeline_tool spawn.argv) path kind (listed-eq _ k)
  ],
  λ h. absurd h,
)
yields_outside_iff zones path kind (session_start _) = (λ h. elim h [ ], λ h. absurd h)
yields_outside_iff zones path kind (session_end _) = (λ h. elim h [ ], λ h. absurd h)
yields_outside_iff zones path kind (heartbeat _) = (λ h. elim h [ ], λ h. absurd h)

-- For any recording: its profile says that a path was written outside the expected directories, and how,
-- exactly if some event is such a write, not known to have failed, and the path is placed outside the
-- zones that the recording's first `session_start` declares. No other event, and no unresolved path,
-- brings that into the profile.
pub profile_of-outside_iff :
    (events : List Event) (path : Text) (kind : WriteKind)
    → Holds (wrote_outside path kind) (profile_of events).behaviors
      ↔ Any (λ e. WritesOutside (recorded_zones events) path kind e.payload) events
profile_of-outside_iff events path kind =
    iff_trans (profile_of-behaviors_iff events (wrote_outside path kind)) (
      Any-map (λ e. (yields_outside_iff (recorded_zones events) path kind e.payload).0),
      Any-map (λ e. (yields_outside_iff (recorded_zones events) path kind e.payload).1),
    )
