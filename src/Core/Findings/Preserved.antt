-- ===== src/Core/Findings/Preserved.antt =====
-- core/src/findings.rs: `deduplicate`, what it preserves of the firings.
use install_scope.Common.{
  ◌≡◌, refl, ◌≢◌, ltb, length, ◌∙◌, ◌⊎◌, inl, inr, true, List, [], ◌∷◌, arith, All, All-append, Any,
  Any-cons, not-Any-nil, Bool-cases,
}
use install_scope.Common.Text.{Text}
use install_scope.Core.Findings.Collapse.{same_key_iff}
use install_scope.Core.Findings.{
  Evidence, Finding, max_evidence_per_finding, push_evidence, push_all, same_key, absorb,
  merge_into, deduplicate_from, deduplicate,
}

-- Where two findings that share a key both have the property, so has the absorbing one.
abbrev pub Absorbs : (Finding → Type 0) → Type 0
Absorbs P = (c f : Finding) → same_key c f ≡ true → P c → P f → P (absorb c f)

module _ (P : Finding → Type 0) (keep : Absorbs P) where
  merge_into-All : (out : List Finding) (f : Finding) → All P out → P f → All P (merge_into out f)
  unfolding merge_into
  merge_into-All [] f _ p = (p, tt)
  merge_into-All (c ∷ out) f (q, h) p = elim (Bool-cases (same_key c f)) [
    | inl same ↦ rw same (keep c f same q p, h)
    | inr other ↦ rw other (q, merge_into-All out f h p)
  ]

  deduplicate_from-All :
      (out fs : List Finding) → All P out → All P fs → All P (deduplicate_from out fs)
  unfolding deduplicate_from
  deduplicate_from-All out [] h _ = h
  deduplicate_from-All out (f ∷ fs) h (p, k) =
      deduplicate_from-All (merge_into out f) fs (merge_into-All out f h p) k

  pub deduplicate-All : (fs : List Finding) → All P fs → All P (deduplicate fs)
  unfolding deduplicate
  deduplicate-All fs h = deduplicate_from-All [] fs tt h

pub absorb_parts :
    (c f : Finding)
    → ((absorb c f).rule_id ≡ c.rule_id)
      × ((absorb c f).subject ≡ c.subject)
      × ((absorb c f).evidence ≡ push_all c.evidence f.evidence)
unfolding absorb
absorb_parts c f = ground arith

module _ (P : Evidence → Type 0) where
  push_evidence-All :
      (kept : List Evidence) (e : Evidence) → All P kept → P e → All P (push_evidence kept e)
  unfolding push_evidence
  push_evidence-All kept e h p = elim (Bool-cases (ltb (length kept) max_evidence_per_finding)) [
    | inl room ↦ rw room (All-append P kept (e ∷ []) h (p, tt))
    | inr full ↦ rw full h
  ]

  pub push_all-All : (kept es : List Evidence) → All P kept → All P es → All P (push_all kept es)
  unfolding push_all
  push_all-All kept [] h _ = h
  push_all-All kept (e ∷ es) h (p, k) =
      push_all-All (push_evidence kept e) es (push_evidence-All kept e h p) k

push_evidence-ne-nil : (kept : List Evidence) (e : Evidence) → kept ≢ [] → push_evidence kept e ≢ []
unfolding push_evidence
push_evidence-ne-nil [] e h = λ _. h refl
push_evidence-ne-nil (x ∷ kept) e h = ground arith

pub push_all-ne-nil : (kept es : List Evidence) → kept ≢ [] → push_all kept es ≢ []
unfolding push_all
push_all-ne-nil kept [] h = h
push_all-ne-nil kept (e ∷ es) h =
    push_all-ne-nil (push_evidence kept e) es (push_evidence-ne-nil kept e h)

-- A finding of the rule on the subject.
abbrev pub IsAbout : Text → Text → Finding → Type 0
IsAbout rule subject f = (f.rule_id ≡ rule) × (f.subject ≡ subject)

absorb-IsAbout :
    (rule subject : Text) (c f : Finding)
    → IsAbout rule subject c
    → IsAbout rule subject (absorb c f)
unfolding absorb
absorb-IsAbout rule subject c f h = ground arith

module _ (rule subject : Text) where
  merge_into-old :
      (out : List Finding) (f : Finding)
      → Any (IsAbout rule subject) out
      → Any (IsAbout rule subject) (merge_into out f)
  unfolding merge_into
  merge_into-old [] f h = elim h [ ]
  merge_into-old (c ∷ out) f h = elim (Bool-cases (same_key c f)) [
    | inl same ↦ rw same (Any-cons (absorb-IsAbout rule subject c f) (λ k. k) h)
    | inr other ↦ rw other (Any-cons (λ k. k) (merge_into-old out f) h)
  ]

  merge_into-new :
      (out : List Finding) (f : Finding)
      → IsAbout rule subject f
      → Any (IsAbout rule subject) (merge_into out f)
  unfolding merge_into
  merge_into-new [] f p = Any.here p
  merge_into-new (c ∷ out) f p = elim (Bool-cases (same_key c f)) [
    | inl same ↦
        let (rules, subjects) = (same_key_iff c f).0 same in
        rw same (Any.here (absorb-IsAbout rule subject c f (rules ∙ p.0, subjects ∙ p.1)))
    | inr other ↦ rw other (Any.there (merge_into-new out f p))
  ]

  deduplicate_from-Any :
      (out fs : List Finding)
      → Any (IsAbout rule subject) out ⊎ Any (IsAbout rule subject) fs
      → Any (IsAbout rule subject) (deduplicate_from out fs)
  unfolding deduplicate_from
  deduplicate_from-Any out [] (inl h) = h
  deduplicate_from-Any out [] (inr h) = absurd (not-Any-nil h)
  deduplicate_from-Any out (f ∷ fs) (inl h) =
      deduplicate_from-Any (merge_into out f) fs (inl (merge_into-old out f h))
  deduplicate_from-Any out (f ∷ fs) (inr (Any.here p)) =
      deduplicate_from-Any (merge_into out f) fs (inl (merge_into-new out f p))
  deduplicate_from-Any out (f ∷ fs) (inr (Any.there h)) =
      deduplicate_from-Any (merge_into out f) fs (inr h)

  -- A rule that fired on a subject still has its finding.
  pub deduplicate-Any :
      (fs : List Finding)
      → Any (IsAbout rule subject) fs
      → Any (IsAbout rule subject) (deduplicate fs)
  unfolding deduplicate
  deduplicate-Any fs h = deduplicate_from-Any [] fs (inr h)
