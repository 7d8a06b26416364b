-- ===== src/Core/Rules/Firing.antt =====
-- core/src/rules.rs: `evaluate`, from what an event shows to a finding.
use install_scope.Common.{
  ◌≡◌, refl, sym, ap, ◌∙◌, ◌≢◌, inl, inr, true, none, some, List, [], ◌∷◌, arith, All, All-self,
  Any, Any-append_left, Any-append_right, Any-map, filter-Any, not-Any-nil, Bool-cases,
  Option-cases,
}
use mathlib.Core.Path.{subst}
use install_scope.Common.Text.{Text, text_eq_iff}
use install_scope.Common.Sort.{sort_by-Any}
use install_scope.Core.Events.{Backend, Event, Zones}
use install_scope.Core.Findings.{Finding, sort_for_display, display_cmp}
use install_scope.Core.Findings.Preserved.{IsAbout, deduplicate-Any}
use install_scope.Core.Coverage.{Observability, observed, partial, unobserved, observability}
use install_scope.Core.Catalog.{RuleKind, Rule, Catalog, rule_for, observation_class}
use install_scope.Core.Catalog.Validity.{IsWellFormed}
use install_scope.Core.Catalog.Choice.{rule_for-IsChosen, AreNew-unique}
use install_scope.Core.Rules.Evaluators.{finding_of, emit}
use install_scope.Core.Rules.Shows.{Shows}
use install_scope.Core.Rules.Steps.{shown_is_emitted}
use install_scope.Core.Rules.Effects.{payload_effect}
use install_scope.Core.Rules.{
  Progress, at_start, session_zones, detect_backend, evaluate_event, evaluate_events,
  skip_unobserved, skip_rule, skip_rules, evaluate,
}

finding_of-IsAbout :
    (rule : Rule) (subject : Text) (event : Event) (detail : Text)
    → IsAbout rule.id subject (finding_of rule subject event detail none)
unfolding finding_of
finding_of-IsAbout rule subject event detail = ground arith

module _ (catalog : Catalog) (zones : Zones) (P : Finding → Type 0) where
  emit-keeps :
      (kind : RuleKind) (subject : Text) (event : Event) (detail : Text) (out : List Finding)
      → Any P out
      → Any P (emit catalog kind subject event detail out none)
  unfolding emit
  emit-keeps kind subject event detail out h = elim (Option-cases (rule_for catalog kind)) [
    | inl no_rule ↦ rw no_rule h
    | inr (rule, chosen) ↦ rw chosen (Any-append_left _ h)
  ]

  evaluate_event-keeps :
      (event : Event) (p : Progress)
      → Any P p.raw
      → Any P (evaluate_event catalog zones event p).raw
  unfolding evaluate_event
  evaluate_event-keeps event p h = elim (payload_effect catalog zones event p event.payload) [
    | inl quiet ↦ rw quiet h
    | inr (kind, subject, shows, (detail, emitted)) ↦
        rw emitted (emit-keeps kind subject event detail p.raw h)
  ]

  evaluate_events-keeps :
      (events : List Event) (p : Progress)
      → Any P p.raw
      → Any P (evaluate_events catalog zones events p).raw
  unfolding evaluate_events
  evaluate_events-keeps [] p h = h
  evaluate_events-keeps (event ∷ events) p h =
      evaluate_events-keeps events (evaluate_event catalog zones event p)
        (evaluate_event-keeps event p h)

module _ (catalog : Catalog) (zones : Zones) (kind : RuleKind) (rule : Rule) (subject : Text)
    (chosen : rule_for catalog kind ≡ some rule) where
  -- The event itself makes the finding.
  evaluate_event-fires :
      (event : Event) (p : Progress)
      → Shows catalog zones event.payload kind subject
      → Any (IsAbout rule.id subject) (evaluate_event catalog zones event p).raw
  unfolding evaluate_event emit
  evaluate_event-fires event p shows =
      let (detail, emitted) = shown_is_emitted catalog zones event p shows in
      rw emitted (
        rw chosen
          (Any-append_right p.raw (Any.here (finding_of-IsAbout rule subject event detail))))

  evaluate_events-fires :
      (events : List Event) (event : Event) (p : Progress)
      → Any (λ e. e ≡ event) events
      → Shows catalog zones event.payload kind subject
      → Any (IsAbout rule.id subject) (evaluate_events catalog zones events p).raw
  unfolding evaluate_events
  evaluate_events-fires [] event p h _ = absurd (not-Any-nil h)
  evaluate_events-fires (e ∷ events) event p (Any.here same) shows =
      evaluate_events-keeps catalog zones (IsAbout rule.id subject) events _ (
        evaluate_event-fires e p
          (subst (λ (x : Event). Shows catalog zones x.payload kind subject) (sym same) shows))
  evaluate_events-fires (e ∷ events) event p (Any.there h) shows =
      evaluate_events-fires events event (evaluate_event catalog zones e p) h shows

-- The loop over the rules drops no finding of a rule id that it does not skip.
abbrev Spares : Backend → Text → Rule → Type 0
Spares backend id r =
    (reason : Text)
    → r.enabled ≡ true
    → observability backend (observation_class r.kind) ≡ unobserved reason
    → r.id ≢ id

module _ (backend : Backend) (id subject : Text) where
  skip_unobserved-spares :
      (o : Observability) (r : Rule) (s : List Finding × List (Text × Text))
      → ((reason : Text) → o ≡ unobserved reason → r.id ≢ id)
      → Any (IsAbout id subject) s.0
      → Any (IsAbout id subject) (skip_unobserved o r s).0
  skip_unobserved-spares observed r s _ h = h
  skip_unobserved-spares (partial note) r s _ h = h
  skip_unobserved-spares (unobserved reason) r s spares h = filter-Any _ s.0 (
      Any-map (λ f about. (about, ground (arith, text_eq_iff f.rule_id r.id, spares reason refl)))
        h)

  skip_rule-Spares :
      (r : Rule) (s : List Finding × List (Text × Text))
      → Spares backend id r
      → Any (IsAbout id subject) s.0
      → Any (IsAbout id subject) (skip_rule backend r s).0
  unfolding skip_rule
  skip_rule-Spares r s spares h = elim (Bool-cases r.enabled) [
    | inr disabled ↦ simp disabled h
    | inl enabled ↦ simp enabled (
        skip_unobserved-spares (observability backend (observation_class r.kind)) r s
          (λ reason e. spares reason enabled e) h)
  ]

  skip_rules-Spares :
      (rules : List Rule) (s : List Finding × List (Text × Text))
      → All (Spares backend id) rules
      → Any (IsAbout id subject) s.0
      → Any (IsAbout id subject) (skip_rules backend rules s).0
  unfolding skip_rules
  skip_rules-Spares [] s _ h = h
  skip_rules-Spares (r ∷ rules) s (spares, rest) h =
      skip_rules-Spares rules (skip_rule backend r s) rest (skip_rule-Spares r s spares h)

-- In a valid catalog only the chosen rule itself could drop its findings.
spared :
    (catalog : Catalog) (backend : Backend) (kind : RuleKind) (rule : Rule)
    → IsWellFormed catalog
    → rule_for catalog kind ≡ some rule
    → ((reason : Text) → observability backend (observation_class kind) ≢ unobserved reason)
    → All (Spares backend rule.id) catalog.rules
spared catalog backend kind rule valid chosen sees =
    let c = rule_for-IsChosen catalog kind rule chosen in
    All-self catalog.rules (λ r listed reason on blind same.
      let one = AreNew-unique [] catalog.rules r rule valid.distinct listed c.listed same in
      sees reason (
        sym (
          ap (λ (x : Rule). observability backend (observation_class x.kind)) one
          ∙ ap (λ k. observability backend (observation_class k)) c.of_kind)
        ∙ blind))

-- For a valid catalog: if an event of the recording shows, on a subject, what a kind of rule is about,
-- the catalog has an enabled rule of the kind, and the recording's backend observes the kind's class,
-- then the analysis has a finding of that rule on that subject.
pub evaluate-fires :
    (catalog : Catalog) (events : List Event) (event : Event) (kind : RuleKind) (rule : Rule)
    (subject : Text)
    → IsWellFormed catalog
    → Any (λ e. e ≡ event) events
    → Shows catalog (session_zones events) event.payload kind subject
    → rule_for catalog kind ≡ some rule
    → ((reason : Text)
        → observability (detect_backend events) (observation_class kind) ≢ unobserved reason)
    → Any (IsAbout rule.id subject) (evaluate catalog events).findings
unfolding evaluate sort_for_display
evaluate-fires catalog events event kind rule subject valid listed shows chosen sees =
    let zones = session_zones events in
    sort_by-Any display_cmp _ (
      deduplicate-Any rule.id subject _ (
        skip_rules-Spares (detect_backend events) rule.id subject catalog.rules _
          (spared catalog (detect_backend events) kind rule valid chosen sees)
          (evaluate_events-fires catalog zones kind rule subject chosen events event at_start listed
            shows)))
