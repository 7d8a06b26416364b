-- ===== src/Core/Rules/Report.antt =====
-- core/src/rules.rs: `evaluate`, the order of its findings and the skipped rules.
use install_scope.Common.{
  ◌≡◌, refl, ap, ◌∙◌, ◌≢◌, inl, inr, true, false, not, List, [], ◌∷◌, arith, All, All-map,
  filter-holds, Any, Any-append_left, Any-append_right, not-Any-nil, Bool-cases,
}
use mathlib.Core.Path.{subst}
use install_scope.Common.Text.{Text, text_eq, text_eq_iff}
use install_scope.Common.Sort.{sort_by-Any, sort_by-All, sort_by-AllPairs, IsSorted}
use install_scope.Core.Events.{Backend, Event}
use install_scope.Core.Findings.{Finding, same_key, absorb, sort_for_display, display_cmp}
use install_scope.Core.Findings.Display.{sort_for_display-IsSorted}
use install_scope.Core.Findings.Collapse.{
  HaveDistinctKeys, deduplicate-HaveDistinctKeys, differ_sym,
}
use install_scope.Core.Findings.Preserved.{deduplicate-All, absorb_parts}
use install_scope.Core.Coverage.{Observability, observed, partial, unobserved, observability}
use install_scope.Core.Catalog.{Rule, Catalog, observation_class}
use install_scope.Core.Rules.Tracing.{skip_rules-All}
use install_scope.Core.Rules.{
  detect_backend, skip_unobserved, skip_rule, skip_rules, skipped_cmp, evaluate,
}

-- Whatever the catalog and the recording, the findings of the analysis stand in display order, and no
-- two of them share rule and subject.
pub evaluate-IsSorted :
    (catalog : Catalog) (events : List Event)
    → IsSorted display_cmp (evaluate catalog events).findings
      × HaveDistinctKeys (evaluate catalog events).findings
unfolding evaluate
evaluate-IsSorted catalog events = (
  sort_for_display-IsSorted _,
  unfold sort_for_display in
      sort_by-AllPairs display_cmp (λ f g. same_key f g ≡ false) differ_sym _
        (deduplicate-HaveDistinctKeys _),
)

-- No finding of the list is of the rule id.
abbrev Free : Text → List Finding → Type 0
Free id = All (λ f. f.rule_id ≢ id)

skip_unobserved-frees :
    (o : Observability) (reason : Text) (rule : Rule) (s : List Finding × List (Text × Text))
    → o ≡ unobserved reason
    → Free rule.id (skip_unobserved o rule s).0
      × Any (λ k. k ≡ (rule.id, reason)) (skip_unobserved o rule s).1
skip_unobserved-frees o reason rule s e = rw e (
  All-map (λ f. not (text_eq f.rule_id rule.id) ≡ true) (λ f. f.rule_id ≢ rule.id)
      (λ f h same. ground (arith, (text_eq_iff f.rule_id rule.id).1 same)) _
      (filter-holds (λ f. not (text_eq f.rule_id rule.id)) s.0),
  Any-append_right s.1 (Any.here refl),
)

skip_unobserved-noted :
    (k : Text × Text) (o : Observability) (rule : Rule) (s : List Finding × List (Text × Text))
    → Any (λ j. j ≡ k) s.1
    → Any (λ j. j ≡ k) (skip_unobserved o rule s).1
skip_unobserved-noted k (unobserved reason) rule s h = Any-append_left _ h
skip_unobserved-noted k observed rule s h = h
skip_unobserved-noted k (partial note) rule s h = h

absorb-free :
    (id : Text) (c f : Finding)
    → same_key c f ≡ true
    → c.rule_id ≢ id
    → f.rule_id ≢ id
    → (absorb c f).rule_id ≢ id
absorb-free id c f same p q = rw (absorb_parts c f).0 p

module _ (backend : Backend) where
  skip_rules-noted :
      (k : Text × Text) (rules : List Rule) (s : List Finding × List (Text × Text))
      → Any (λ j. j ≡ k) s.1
      → Any (λ j. j ≡ k) (skip_rules backend rules s).1
  unfolding skip_rules skip_rule
  skip_rules-noted k [] s h = h
  skip_rules-noted k (rule ∷ rules) s h =
      skip_rules-noted k rules (skip_rule backend rule s) (elim (Bool-cases rule.enabled) [
        | inr disabled ↦ simp disabled h
        | inl enabled ↦
            simp enabled (
              skip_unobserved-noted k (observability backend (observation_class rule.kind)) rule s
                h)
      ])

  skip_rules-frees_head :
      (reason : Text) (r : Rule) (rules : List Rule) (s : List Finding × List (Text × Text))
      → r.enabled ≡ true
      → observability backend (observation_class r.kind) ≡ unobserved reason
      → Free r.id (skip_rules backend rules (skip_rule backend r s)).0
        × Any (λ k. k ≡ (r.id, reason)) (skip_rules backend rules (skip_rule backend r s)).1
  unfolding skip_rule
  skip_rules-frees_head reason r rules s on blind =
      let o = observability backend (observation_class r.kind) in
      let (free, noted) = skip_unobserved-frees o reason r s blind in
      simp on (
        skip_rules-All (λ f. f.rule_id ≢ r.id) backend rules (skip_unobserved o r s) free,
        skip_rules-noted (r.id, reason) rules (skip_unobserved o r s) noted,
      )

  skip_rules-frees :
      (reason : Text) (rule : Rule) (rules : List Rule) (s : List Finding × List (Text × Text))
      → Any (λ r. r ≡ rule) rules
      → rule.enabled ≡ true
      → observability backend (observation_class rule.kind) ≡ unobserved reason
      → Free rule.id (skip_rules backend rules s).0
        × Any (λ k. k ≡ (rule.id, reason)) (skip_rules backend rules s).1
  unfolding skip_rules
  skip_rules-frees reason rule [] s h _ _ = absurd (not-Any-nil h)
  skip_rules-frees reason rule (r ∷ rules) s (Any.there h) on blind =
      skip_rules-frees reason rule rules (skip_rule backend r s) h on blind
  skip_rules-frees reason rule (r ∷ rules) s (Any.here same) on blind =
      subst
        (λ (x : Rule).
          Free x.id (skip_rules backend rules (skip_rule backend r s)).0
          × Any (λ k. k ≡ (x.id, reason)) (skip_rules backend rules (skip_rule backend r s)).1)
        same
        (skip_rules-frees_head reason r rules s (ap (λ (x : Rule). x.enabled) same ∙ on)
          (ap (λ (x : Rule). observability backend (observation_class x.kind)) same ∙ blind))

-- For any catalog and recording: an enabled rule whose class the recording's backend does not observe
-- has no finding in the analysis, and is listed among the skipped rules with the reason.
pub evaluate-skips :
    (catalog : Catalog) (events : List Event) (rule : Rule) (reason : Text)
    → Any (λ r. r ≡ rule) catalog.rules
    → rule.enabled ≡ true
    → observability (detect_backend events) (observation_class rule.kind) ≡ unobserved reason
    → All (λ f. f.rule_id ≢ rule.id) (evaluate catalog events).findings
      × Any (λ k. k ≡ (rule.id, reason)) (evaluate catalog events).skipped_rules
unfolding evaluate sort_for_display
evaluate-skips catalog events rule reason listed on blind =
    let (free, noted) =
      skip_rules-frees (detect_backend events) reason rule catalog.rules _ listed on blind in
    (
      sort_by-All display_cmp (λ f. f.rule_id ≢ rule.id) _
          (deduplicate-All (λ f. f.rule_id ≢ rule.id) (absorb-free rule.id) _ free),
      sort_by-Any skipped_cmp _ noted,
    )
