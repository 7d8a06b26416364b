-- ===== src/Core/Rules.antt =====
-- core/src/rules.rs: the rules engine. One pass over a recording's events, then the findings of the
-- classes that the backend cannot see are dropped, and the rest is collapsed, sorted and scored.
pub mod Commands
pub mod Evaluators
pub mod Shows
pub mod Steps
pub mod Effects
pub mod Tracing
pub mod Firing
pub mod Report
pub mod Completeness
pub mod Trust
use mathlib.Core.List.{reverse}
use install_scope.Common.{
  ℕ, Bool, true, false, Option, none, some, List, [], ◌∷◌, ◌++◌, map, ◌==◌, ◌&&◌, not, ltb, filter,
  if◌then◌else◌, saturating_add_u32, incr_u64,
}
use install_scope.Common.Text.{Text, text, text_eq}
use install_scope.Common.Text.Order.{text_cmp}
use install_scope.Common.Compare.{Comparison, compare_by}
use install_scope.Common.Sort.{sort_by}
use install_scope.Core.Events.{
  Backend, strace, Event, Payload, session_start, fs_write, fs_read, net_connect, dns_query,
  proc_spawn, heartbeat, session_end, SessionEnd, Zones, no_zones, failed_known,
}
use install_scope.Core.Events.Reason.{display_reason}
use install_scope.Core.Zones.{placement_of, is_unresolvable}
use install_scope.Core.Findings.{Finding, Score, compute, deduplicate, sort_for_display}
use install_scope.Core.Coverage.{
  Coverage, Observability, observed, partial, unobserved, observability, for_backend, is_complete,
}
use install_scope.Core.Catalog.{Catalog, Rule, observation_class}
use Evaluators.{evaluate_write, evaluate_read, evaluate_connect, evaluate_dns, evaluate_spawn}

pub record Analysis : Type 0 where
  pub findings : List Finding
  pub score : Score
  pub coverage : Coverage
  pub is_partial : Bool
  pub partial_reasons : List Text
  pub skipped_rules : List (Text × Text)
  pub unresolved_paths : ℕ
  pub observations : ℕ

unfoldable pub clean_result_is_trustworthy : Analysis → Bool
clean_result_is_trustworthy a =
    not a.is_partial && is_complete a.coverage && a.unresolved_paths == 0 && ltb 0 a.observations

abbrev backend_of : List Event → Backend
backend_of [] = strace
backend_of (event ∷ _) = event.meta.backend

unfoldable pub detect_backend : List Event → Backend
detect_backend = backend_of

abbrev zones_or : Payload → Zones → Zones
zones_or (session_start start) later = start.zones
zones_or _ later = later

-- The zones of the first `session_start`, and none without one.
unfoldable pub session_zones : List Event → Zones
session_zones [] = no_zones
session_zones (event ∷ events) = zones_or event.payload (session_zones events)

abbrev end_or : Payload → Option SessionEnd → Option SessionEnd
end_or (session_end end) later = some end
end_or _ later = later

abbrev pub find_end : List Event → Option SessionEnd
find_end [] = none
find_end (event ∷ events) = end_or event.payload (find_end events)

abbrev completeness_of : Option SessionEnd → Bool × List Text
completeness_of none =
    (true, text "the recording has no session_end event; it may have been truncated" ∷ [])
completeness_of (some end) =
    if end.complete then (false, []) else (true, map display_reason end.incomplete_reasons)

-- Whether the recording is partial, and why: by its last `session_end`.
unfoldable pub session_completeness : List Event → Bool × List Text
session_completeness events = completeness_of (find_end (reverse events))

-- What the loop over the events has gathered.
pub record Progress : Type 0 where
  pub raw : List Finding
  pub unresolved_paths : ℕ
  pub observations : ℕ

abbrev pub at_start : Progress
at_start = record { raw = []; unresolved_paths = 0; observations = 0 }

-- One more observation, with the findings as they are now.
abbrev observe : Progress → List Finding → Progress
observe p raw = record p { raw = raw; observations = incr_u64 p.observations }

module _ (catalog : Catalog) (zones : Zones) where
  abbrev evaluate_payload : Event → Payload → Progress → Progress
  evaluate_payload event (fs_write w) p =
      let placement = placement_of w.target zones in
      if is_unresolvable placement
      then record p {
        unresolved_paths = saturating_add_u32 p.unresolved_paths 1;
        observations = incr_u64 p.observations;
      }
      else (if failed_known w.outcome
          then observe p p.raw
          else observe p (evaluate_write catalog event w placement p.raw))
  evaluate_payload event (fs_read r) p = observe p (evaluate_read catalog event r p.raw)
  evaluate_payload event (net_connect c) p = observe p (evaluate_connect catalog event c p.raw)
  evaluate_payload event (dns_query q) p = observe p (evaluate_dns catalog event q p.raw)
  evaluate_payload event (proc_spawn s) p = observe p (evaluate_spawn catalog event s p.raw)
  evaluate_payload event (session_start _) p = p
  evaluate_payload event (session_end _) p = p
  evaluate_payload event (heartbeat _) p = p

  -- One round of the loop over the events.
  unfoldable pub evaluate_event : Event → Progress → Progress
  evaluate_event event p = evaluate_payload event event.payload p

  unfoldable pub evaluate_events : List Event → Progress → Progress
  evaluate_events [] p = p
  evaluate_events (event ∷ events) p = evaluate_events events (evaluate_event event p)

-- The loop over the rules: an enabled rule whose class is unobserved is noted, and its findings go.
abbrev skip_unobserved :
    Observability → Rule → List Finding × List (Text × Text) → List Finding × List (Text × Text)
skip_unobserved (unobserved reason) rule (raw, skipped) =
    (filter (λ f. not (text_eq f.rule_id rule.id)) raw, skipped ++ (rule.id, reason) ∷ [])
skip_unobserved observed rule s = s
skip_unobserved (partial _) rule s = s

unfoldable pub skip_rule :
    Backend → Rule → List Finding × List (Text × Text) → List Finding × List (Text × Text)
skip_rule backend rule s =
    if rule.enabled
    then skip_unobserved (observability backend (observation_class rule.kind)) rule s
    else s

unfoldable pub skip_rules :
    Backend → List Rule → List Finding × List (Text × Text) → List Finding × List (Text × Text)
skip_rules backend [] s = s
skip_rules backend (rule ∷ rules) s = skip_rules backend rules (skip_rule backend rule s)

abbrev skipped_cmp : Comparison (Text × Text)
skipped_cmp = compare_by (λ s. s.0) text_cmp

unfoldable pub evaluate : Catalog → List Event → Analysis
evaluate catalog events =
    let backend = detect_backend events in
    let progress = evaluate_events catalog (session_zones events) events at_start in
    let kept = skip_rules backend catalog.rules (progress.raw, []) in
    let findings = sort_for_display (deduplicate kept.0) in
    let completeness = session_completeness events in
    record {
      findings = findings;
      score = compute findings;
      coverage = for_backend backend;
      is_partial = completeness.0;
      partial_reasons = completeness.1;
      skipped_rules = sort_by skipped_cmp kept.1;
      unresolved_paths = progress.unresolved_paths;
      observations = progress.observations;
    }
