-- ===== src/Core/Rules/Tracing.antt =====
-- core/src/rules.rs: `evaluate`, from a finding back to the events.
use install_scope.Common.{
  ◌≡◌, refl, sym, ◌≢◌, inl, inr, true, none, some, List, [], ◌∷◌, arith, All, All-append,
  All-filter, All-is_item, Any, Any-map, Bool-cases, Option-cases,
}
use mathlib.Core.Path.{subst, subst₂}
use install_scope.Common.Text.{Text}
use install_scope.Common.Sort.{sort_by-All}
use install_scope.Core.Events.{Backend, Event, Zones}
use install_scope.Core.Findings.{Evidence, Finding, same_key, absorb, sort_for_display, display_cmp}
use install_scope.Core.Findings.Collapse.{same_key_iff}
use install_scope.Core.Findings.Preserved.{
  deduplicate-All, absorb_parts, push_all-All, push_all-ne-nil,
}
use install_scope.Core.Catalog.{RuleKind, Rule, Catalog, rule_for, observation_class}
use install_scope.Core.Rules.Evaluators.{evidence_of, finding_of, emit}
use install_scope.Core.Rules.Shows.{Shows}
use install_scope.Core.Rules.Effects.{payload_effect}
use install_scope.Core.Coverage.{Observability, observed, partial, unobserved, observability}
use install_scope.Core.Rules.{
  skip_unobserved, detect_backend, Progress, at_start, session_zones, evaluate_event,
  evaluate_events, skip_rule, skip_rules, evaluate,
}

module _ (catalog : Catalog) (zones : Zones) where
  -- The event shows what the named rule is about, on the subject.
  pub record Backs (rule_id subject : Text) (event : Event) : Type 0 where
    pub kind : RuleKind
    pub rule : Rule
    pub chosen : rule_for catalog kind ≡ some rule
    pub named : rule.id ≡ rule_id
    pub shows : Shows catalog zones event.payload kind subject

  -- The piece of evidence is of an event that backs the finding.
  abbrev pub IsEvidence : List Event → Text → Text → Evidence → Type 0
  IsEvidence events rule_id subject e =
      Any (λ event. Backs rule_id subject event × (e ≡ evidence_of event e.detail)) events

  abbrev pub IsTraced : List Event → Finding → Type 0
  IsTraced events f = (f.evidence ≢ []) × All (IsEvidence events f.rule_id f.subject) f.evidence

  abbrev BackedBy : Rule → Text → Event → Text → Event → Type 0
  BackedBy rule subject event detail e =
      Backs rule.id subject e
      × (◌≡◌ {A = Evidence} (evidence_of event detail) (evidence_of e detail))

  module _ (events : List Event) where
    -- Firings that share a key are backed by the same events.
    same_key-IsEvidence :
        (c f : Finding)
        → same_key c f ≡ true
        → All (IsEvidence events f.rule_id f.subject) f.evidence
        → All (IsEvidence events c.rule_id c.subject) f.evidence
    same_key-IsEvidence c f same h =
        let (rules, subjects) = (same_key_iff c f).0 same in
        subst₂ (λ r s. All (IsEvidence events r s) f.evidence) (sym rules) (sym subjects) h

    absorb-IsTraced :
        (c f : Finding)
        → same_key c f ≡ true
        → IsTraced events c
        → IsTraced events f
        → IsTraced events (absorb c f)
    absorb-IsTraced c f same (c_some, c_all) (f_some, f_all) =
        let (rules, subjects, evidence) = absorb_parts c f in
        rw (rules, subjects, evidence)
          (
            push_all-ne-nil c.evidence f.evidence c_some,
            push_all-All (IsEvidence events c.rule_id c.subject) c.evidence f.evidence c_all
                (same_key-IsEvidence c f same f_all),
          )

    -- A finding as it is emitted rests on its event.
    finding_of_parts :
        (rule : Rule) (subject : Text) (event : Event) (detail : Text)
        → let f = finding_of rule subject event detail none in
          (f.rule_id ≡ rule.id)
          × (f.subject ≡ subject)
          × (f.evidence ≡ evidence_of event detail ∷ [])
    unfolding finding_of
    finding_of_parts rule subject event detail = ground arith

    finding_of-IsTraced :
        (rule : Rule) (subject : Text) (event : Event) (detail : Text)
        → Any (λ e. e ≡ event) events
        → Backs rule.id subject event
        → IsTraced events (finding_of rule subject event detail none)
    unfolding evidence_of
    finding_of-IsTraced rule subject event detail listed backs =
        let (rules, subjects, evidence) = finding_of_parts rule subject event detail in
        rw (rules, subjects, evidence)
          (
            λ e. ground arith,
            (
              Any-map
                  (λ e same. subst (BackedBy rule subject event detail) (sym same) (backs, refl))
                  listed,
              tt,
            ),
          )

    emit-IsTraced :
        (kind : RuleKind) (subject : Text) (event : Event) (detail : Text) (out : List Finding)
        → Any (λ e. e ≡ event) events
        → Shows catalog zones event.payload kind subject
        → All (IsTraced events) out
        → All (IsTraced events) (emit catalog kind subject event detail out none)
    unfolding emit
    emit-IsTraced kind subject event detail out listed shows h =
        elim (Option-cases (rule_for catalog kind)) [
          | inl no_rule ↦ rw no_rule h
          | inr (rule, chosen) ↦ rw chosen (
              All-append (IsTraced events) out _ h (
                finding_of-IsTraced rule subject event detail listed (record {
                  kind = kind;
                  rule = rule;
                  chosen = chosen;
                  named = refl;
                  shows = shows;
                }),
                tt,
              ))
        ]

    evaluate_event-IsTraced :
        (event : Event) (p : Progress)
        → Any (λ e. e ≡ event) events
        → All (IsTraced events) p.raw
        → All (IsTraced events) (evaluate_event catalog zones event p).raw
    unfolding evaluate_event
    evaluate_event-IsTraced event p listed h =
        elim (payload_effect catalog zones event p event.payload) [
          | inl quiet ↦ rw quiet h
          | inr (kind, subject, shows, (detail, emitted)) ↦
              rw emitted (emit-IsTraced kind subject event detail p.raw listed shows h)
        ]

    pub evaluate_events-IsTraced :
        (rest : List Event) (p : Progress)
        → All (λ event. Any (λ e. e ≡ event) events) rest
        → All (IsTraced events) p.raw
        → All (IsTraced events) (evaluate_events catalog zones rest p).raw
    unfolding evaluate_events
    evaluate_events-IsTraced [] p _ h = h
    evaluate_events-IsTraced (event ∷ rest) p (listed, k) h =
        evaluate_events-IsTraced rest (evaluate_event catalog zones event p) k
          (evaluate_event-IsTraced event p listed h)

pub skip_unobserved-All :
    (P : Finding → Type 0) (o : Observability) (rule : Rule) (s : List Finding × List (Text × Text))
    → All P s.0
    → All P (skip_unobserved o rule s).0
skip_unobserved-All P (unobserved reason) rule s h = All-filter P _ s.0 h
skip_unobserved-All P observed rule s h = h
skip_unobserved-All P (partial note) rule s h = h

pub skip_rule-All :
    (P : Finding → Type 0) (backend : Backend) (rule : Rule) (s : List Finding × List (Text × Text))
    → All P s.0
    → All P (skip_rule backend rule s).0
unfolding skip_rule
skip_rule-All P backend rule s h = elim (Bool-cases rule.enabled) [
  | inr disabled ↦ simp disabled h
  | inl enabled ↦
      simp enabled
        (skip_unobserved-All P (observability backend (observation_class rule.kind)) rule s h)
]

pub skip_rules-All :
    (P : Finding → Type 0) (backend : Backend) (rules : List Rule)
    (s : List Finding × List (Text × Text))
    → All P s.0
    → All P (skip_rules backend rules s).0
unfolding skip_rules
skip_rules-All P backend [] s h = h
skip_rules-All P backend (rule ∷ rules) s h =
    skip_rules-All P backend rules (skip_rule backend rule s) (skip_rule-All P backend rule s h)

-- For any catalog and recording, every finding of the analysis holds at least one piece of evidence,
-- and each piece is of an event of the recording that shows, on the finding's subject, what an
-- enabled rule with the finding's id is about: a write outside the zones, a credential read, and so on.
pub evaluate-IsTraced :
    (catalog : Catalog) (events : List Event)
    → All (IsTraced catalog (session_zones events) events) (evaluate catalog events).findings
unfolding evaluate sort_for_display
evaluate-IsTraced catalog events =
    let zones = session_zones events in
    let traced =
      evaluate_events-IsTraced catalog zones events events at_start (All-is_item events) tt in
    sort_by-All display_cmp (IsTraced catalog zones events) _ (
      deduplicate-All (IsTraced catalog zones events) (absorb-IsTraced catalog zones events) _ (
        skip_rules-All (IsTraced catalog zones events) (detect_backend events) catalog.rules _
          traced))
