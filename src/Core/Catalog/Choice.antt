-- ===== src/Core/Catalog/Choice.antt =====
-- core/src/catalog.rs: `Catalog::rule_for`, the rule of a kind.
use install_scope.Common.{
  ◌≡◌, sym, ap, ◌∙◌, ◌≢◌, true, ◌&&◌, List, [], ◌∷◌, some, arith, All, Any, not-Any-nil,
  find-eq-some, find-listed, &&_iff,
}
use mathlib.Core.Path.{subst}
use install_scope.Common.Text.{Text}
use install_scope.Core.Catalog.{RuleKind, Rule, Catalog, kind_eq, rule_for}
use install_scope.Core.Catalog.Validity.{AreNew}

kind_eq_sound : (a b : RuleKind) → kind_eq a b ≡ true → a ≡ b
kind_eq_sound a b h = ground arith

-- The rule of a kind is a rule of the catalog, enabled, and of the kind.
pub record IsChosen (c : Catalog) (kind : RuleKind) (rule : Rule) : Type 0 where
  pub listed : Any (λ r. r ≡ rule) c.rules
  pub is_enabled : rule.enabled ≡ true
  pub of_kind : rule.kind ≡ kind

pub rule_for-IsChosen :
    (c : Catalog) (kind : RuleKind) (rule : Rule)
    → rule_for c kind ≡ some rule
    → IsChosen c kind rule
unfolding rule_for
rule_for-IsChosen c kind rule h =
    let passes =
      (&&_iff _ _).0 (find-eq-some (λ r. r.enabled && kind_eq r.kind kind) c.rules rule h) in
    record {
      listed = find-listed (λ r. r.enabled && kind_eq r.kind kind) c.rules rule h;
      is_enabled = passes.0;
      of_kind = kind_eq_sound rule.kind kind passes.1;
    }

AreNew-differs :
    (seen : List Text) (rules : List Rule) (a : Rule)
    → AreNew seen rules
    → Any (λ r. r ≡ a) rules
    → All (λ id. a.id ≢ id) seen
AreNew-differs seen [] a _ h = absurd (not-Any-nil h)
AreNew-differs seen (r ∷ rules) a (new, _) (Any.here same) =
    subst (λ (x : Rule). All (λ id. x.id ≢ id) seen) same new
AreNew-differs seen (r ∷ rules) a (_, news) (Any.there h) =
    (AreNew-differs (r.id ∷ seen) rules a news h).1

-- Rules with one id are one rule.
pub AreNew-unique :
    (seen : List Text) (rules : List Rule) (a b : Rule)
    → AreNew seen rules
    → Any (λ r. r ≡ a) rules
    → Any (λ r. r ≡ b) rules
    → a.id ≡ b.id
    → a ≡ b
AreNew-unique seen [] a b _ h _ _ = absurd (not-Any-nil h)
AreNew-unique seen (r ∷ rules) a b _ (Any.here p) (Any.here q) e = sym p ∙ q
AreNew-unique seen (r ∷ rules) a b (_, news) (Any.here p) (Any.there k) e =
    absurd
      ((AreNew-differs (r.id ∷ seen) rules b news k).0 (sym e ∙ ap (λ (x : Rule). x.id) (sym p)))
AreNew-unique seen (r ∷ rules) a b (_, news) (Any.there h) (Any.here q) e =
    absurd ((AreNew-differs (r.id ∷ seen) rules a news h).0 (e ∙ ap (λ (x : Rule). x.id) (sym q)))
AreNew-unique seen (r ∷ rules) a b (_, news) (Any.there h) (Any.there k) e =
    AreNew-unique (r.id ∷ seen) rules a b news h k e
