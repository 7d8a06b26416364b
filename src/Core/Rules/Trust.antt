-- ===== src/Core/Rules/Trust.antt =====
-- core/src/rules.rs: `clean_result_is_trustworthy` and the counts of an analysis.
use install_scope.Common.{
  ℕ, ◌+◌, ◌%◌, ◌^◌, ◌≤◌, ◌<◌, ◌≡◌, refl, ◌↔◌, Bool, true, false, List, [], ◌∷◌, arith, min, u32_max,
  saturating_add_u32, incr_u64, if◌then◌else◌,
}
use install_scope.Core.Events.{
  Backend, strace, aya, Event, Payload, fs_write, fs_read, SessionEnd, Zones, is_framing,
}
use install_scope.Core.Zones.{is_unresolvable, placement_of}
use install_scope.Core.Coverage.{
  for_backend, is_complete, blind_spots, unobserved_of, observability,
}
use install_scope.Core.Catalog.{Catalog}
use install_scope.Core.Rules.{
  Progress, at_start, detect_backend, session_zones, session_completeness, evaluate_payload,
  evaluate_event, evaluate_events, evaluate, clean_result_is_trustworthy,
}
use install_scope.Core.Rules.Completeness.{session_completeness_iff, LastEnd}

abbrev is_unplaced : Zones → Payload → Bool
is_unplaced zones (fs_write w) = is_unresolvable (placement_of w.target zones)
is_unplaced zones _ = false

-- Writes that could not be placed, and observations, in a recording.
abbrev pub unplaced_writes : Zones → List Event → ℕ
unplaced_writes zones [] = 0
unplaced_writes zones (event ∷ events) =
    (if is_unplaced zones event.payload then 1 else 0) + unplaced_writes zones events

abbrev pub observed_events : List Event → ℕ
observed_events [] = 0
observed_events (event ∷ events) =
    (if is_framing event.payload then 0 else 1) + observed_events events

module _ (catalog : Catalog) (zones : Zones) where
  payload_counts :
      (event : Event) (payload : Payload) (p : Progress)
      → let q = evaluate_payload catalog zones event payload p in
        (q.unresolved_paths ≡ (
          if is_unplaced zones payload
          then saturating_add_u32 p.unresolved_paths 1
          else p.unresolved_paths))
        × (q.observations
            ≡ (if is_framing payload then p.observations else incr_u64 p.observations))
  unfolding is_framing
  payload_counts event (fs_write w) p = ground arith
  payload_counts event (fs_read _) p = (refl, refl)
  payload_counts event _ p = (refl, refl)

  unresolved_paths-evaluate_events :
      (events : List Event) (p : Progress)
      → p.unresolved_paths ≤ u32_max
      → (evaluate_events catalog zones events p).unresolved_paths
        ≡ min (p.unresolved_paths + unplaced_writes zones events) u32_max
  unfolding evaluate_events evaluate_event saturating_add_u32
  unresolved_paths-evaluate_events [] p h = omega arith
  unresolved_paths-evaluate_events (event ∷ events) p h =
      let q = evaluate_payload catalog zones event event.payload p in
      ground
        (arith, payload_counts event event.payload p, unresolved_paths-evaluate_events events q)

  observations-evaluate_events :
      (events : List Event) (p : Progress)
      → p.observations < 2 ^ 64
      → (evaluate_events catalog zones events p).observations
        ≡ (p.observations + observed_events events) % 2 ^ 64
  unfolding evaluate_events evaluate_event incr_u64
  observations-evaluate_events [] p h = omega arith
  observations-evaluate_events (event ∷ events) p h =
      let q = evaluate_payload catalog zones event event.payload p in
      ground (arith, payload_counts event event.payload p, observations-evaluate_events events q)

-- For any catalog and recording, the analysis counts the writes that could not be placed, saturated at
-- the width of the word, and the observations, modulo the width of theirs.
pub evaluate-counts :
    (catalog : Catalog) (events : List Event)
    → ((evaluate catalog events).unresolved_paths
        ≡ min (unplaced_writes (session_zones events) events) u32_max)
      × ((evaluate catalog events).observations ≡ observed_events events % 2 ^ 64)
unfolding evaluate
evaluate-counts catalog events =
    let zones = session_zones events in
    (
      omega (arith, unresolved_paths-evaluate_events catalog zones events at_start (omega arith)),
      omega (arith, observations-evaluate_events catalog zones events at_start (omega arith)),
    )

-- What makes a clean result trustworthy.
pub record IsTrustworthy (events : List Event) : Type 0 where
  pub whole : (end : SessionEnd) × LastEnd end events × (end.complete ≡ true)
  pub sees_all : detect_backend events ≡ strace
  pub placed : unplaced_writes (session_zones events) events ≡ 0
  pub not_empty : 0 < observed_events events

is_complete_iff :
    (backend : Backend) → (is_complete (for_backend backend) ≡ true) ↔ (backend ≡ strace)
unfolding is_complete for_backend blind_spots unobserved_of observability
is_complete_iff strace = (λ _. refl, λ _. refl)
is_complete_iff aya = (λ h. cc, λ h. cc)

trust_fields :
    (catalog : Catalog) (events : List Event)
    → (clean_result_is_trustworthy (evaluate catalog events) ≡ true) ↔ (
        ((session_completeness events).0 ≡ false)
        × (is_complete (for_backend (detect_backend events)) ≡ true)
        × ((evaluate catalog events).unresolved_paths ≡ 0)
        × (0 < (evaluate catalog events).observations))
unfolding clean_result_is_trustworthy evaluate
trust_fields catalog events = ground arith

-- For any catalog and a recording of fewer than 2^64 observations: a clean result is trustworthy
-- exactly when the last `session_end` declares the recording whole, the backend is strace, every
-- write could be placed, and something was observed.
pub clean_result_is_trustworthy_iff :
    (catalog : Catalog) (events : List Event)
    → observed_events events < 2 ^ 64
    → (clean_result_is_trustworthy (evaluate catalog events) ≡ true) ↔ IsTrustworthy events
clean_result_is_trustworthy_iff catalog events small =
    let fields = trust_fields catalog events in
    let (paths, seen) = evaluate-counts catalog events in
    (
      λ h.
          let (whole, sees, placed, some_seen) = fields.0 h in
          record {
            whole = (session_completeness_iff events).0 whole;
            sees_all = (is_complete_iff (detect_backend events)).0 sees;
            placed = omega arith;
            not_empty = omega arith;
          },
      λ t. fields.1 (
        (session_completeness_iff events).1 t.whole,
        (is_complete_iff (detect_backend events)).1 t.sees_all,
        omega arith,
        omega arith,
      ),
    )
