-- ===== src/Core/Findings/Collapse.antt =====
-- core/src/findings.rs: `deduplicate`, against a fold for each key.
use install_scope.Common.{
  ◌≡◌, refl, ap, ap₂, ◌∙◌, ◌↔◌, inl, inr, Bool, true, false, ◌&&◌, Option, none, some, List, [],
  ◌∷◌, arith, find, if◌then◌else◌, Bool-cases, All, AllPairs, All-map,
}
use install_scope.Common.Text.{Text, text_eq, text_eq_iff}
use install_scope.Core.Findings.{
  Finding, same_key, absorb, escalate, merge_into, deduplicate_from, deduplicate,
}

abbrev pub has_key : Text → Text → Finding → Bool
has_key rule subject f = text_eq f.rule_id rule && text_eq f.subject subject

-- The finding of a list that has the key.
abbrev pub find_key : Text → Text → List Finding → Option Finding
find_key rule subject = find (has_key rule subject)

abbrev pub absorb_into : Option Finding → Finding → Finding
absorb_into none f = f
absorb_into (some g) f = absorb g f

-- The reference: the firings with the key, folded from the first.
abbrev pub collapse : Text → Text → Option Finding → List Finding → Option Finding
collapse rule subject o [] = o
collapse rule subject o (f ∷ fs) =
    let next : Option Finding = if has_key rule subject f then some (absorb_into o f) else o in
    collapse rule subject next fs

pub same_key_iff :
    (f g : Finding) → (same_key f g ≡ true) ↔ ((f.rule_id ≡ g.rule_id) × (f.subject ≡ g.subject))
unfolding same_key
same_key_iff f g = ground (arith, text_eq_iff f.rule_id g.rule_id, text_eq_iff f.subject g.subject)

escalate-key :
    (b : Bool) (g f : Finding)
    → ((escalate b g f).rule_id ≡ g.rule_id) × ((escalate b g f).subject ≡ g.subject)
escalate-key true g f = (refl, refl)
escalate-key false g f = (refl, refl)

absorb-has_key :
    (rule subject : Text) (g f : Finding)
    → has_key rule subject (absorb g f) ≡ has_key rule subject g
unfolding absorb
absorb-has_key rule subject g f = ground arith

has_key_of_same_key :
    (rule subject : Text) (f g : Finding)
    → same_key f g ≡ true
    → has_key rule subject f ≡ has_key rule subject g
has_key_of_same_key rule subject f g h =
    let (same_rule, same_subject) = (same_key_iff f g).0 h in
    ap₂ (λ r s. text_eq r rule && text_eq s subject) same_rule same_subject

-- Two findings that have one key have the same key.
same_key_of_has_key :
    (rule subject : Text) (f g : Finding)
    → has_key rule subject f ≡ true
    → has_key rule subject g ≡ true
    → same_key f g ≡ true
unfolding same_key
same_key_of_has_key rule subject f g h k = ground (
  arith,
  text_eq_iff f.rule_id rule,
  text_eq_iff g.rule_id rule,
  text_eq_iff f.subject subject,
  text_eq_iff g.subject subject,
  text_eq_iff f.rule_id g.rule_id,
  text_eq_iff f.subject g.subject,
)

find_key-merge_into :
    (rule subject : Text) (out : List Finding) (f : Finding)
    → find_key rule subject (merge_into out f) ≡ (
        if has_key rule subject f
        then some (absorb_into (find_key rule subject out) f)
        else find_key rule subject out)
unfolding merge_into
find_key-merge_into rule subject [] f = ground arith
find_key-merge_into rule subject (c ∷ out) f = ground (
  arith,
  find_key-merge_into rule subject out f,
  absorb-has_key rule subject c f,
  has_key_of_same_key rule subject c f,
  same_key_of_has_key rule subject c f,
)

find_key-deduplicate_from :
    (rule subject : Text) (out fs : List Finding)
    → find_key rule subject (deduplicate_from out fs)
      ≡ collapse rule subject (find_key rule subject out) fs
unfolding deduplicate_from
find_key-deduplicate_from rule subject out [] = refl
find_key-deduplicate_from rule subject out (f ∷ fs) =
    find_key-deduplicate_from rule subject (merge_into out f) fs
    ∙ ap (λ o. collapse rule subject o fs) (find_key-merge_into rule subject out f)

-- For any firings and any key, the finding that `deduplicate` leaves for the key is the fold by
-- `absorb` of the firings that have it, in their order; there is none if none has it.
pub find_key-deduplicate :
    (rule subject : Text) (fs : List Finding)
    → find_key rule subject (deduplicate fs) ≡ collapse rule subject none fs
unfolding deduplicate
find_key-deduplicate rule subject fs = find_key-deduplicate_from rule subject [] fs

-- No two findings of a list have one key.
abbrev pub HaveDistinctKeys : List Finding → Type 0
HaveDistinctKeys = AllPairs (λ f g. same_key f g ≡ false)

pub differ_sym : (f g : Finding) → same_key f g ≡ false → same_key g f ≡ false
unfolding same_key
differ_sym f g h = ground (
  arith,
  text_eq_iff f.rule_id g.rule_id,
  text_eq_iff g.rule_id f.rule_id,
  text_eq_iff f.subject g.subject,
  text_eq_iff g.subject f.subject,
)

same_key-absorb : (x c f : Finding) → same_key x (absorb c f) ≡ same_key x c
unfolding same_key absorb
same_key-absorb x c f = ground arith

absorb-same_key : (c f x : Finding) → same_key (absorb c f) x ≡ same_key c x
unfolding same_key absorb
absorb-same_key c f x = ground arith

merge_into-differs :
    (x : Finding) (out : List Finding) (f : Finding)
    → same_key x f ≡ false
    → All (λ g. same_key x g ≡ false) out
    → All (λ g. same_key x g ≡ false) (merge_into out f)
unfolding merge_into
merge_into-differs x [] f h _ = (h, tt)
merge_into-differs x (c ∷ out) f h (p, k) =
    ground (arith, merge_into-differs x out f h k, same_key-absorb x c f)

absorb-differs :
    (c f : Finding) (out : List Finding)
    → All (λ g. same_key c g ≡ false) out
    → All (λ g. same_key (absorb c f) g ≡ false) out
absorb-differs c f out h =
    All-map (λ g. same_key c g ≡ false) (λ g. same_key (absorb c f) g ≡ false)
      (λ g e. absorb-same_key c f g ∙ e) out h

merge_into-distinct :
    (out : List Finding) (f : Finding) → HaveDistinctKeys out → HaveDistinctKeys (merge_into out f)
unfolding merge_into
merge_into-distinct [] f _ = (tt, tt)
merge_into-distinct (c ∷ out) f (p, h) = elim (Bool-cases (same_key c f)) [
  | inl same ↦ rw same (absorb-differs c f out p, h)
  | inr other ↦ rw other (merge_into-differs c out f other p, merge_into-distinct out f h)
]

deduplicate_from-distinct :
    (out fs : List Finding) → HaveDistinctKeys out → HaveDistinctKeys (deduplicate_from out fs)
unfolding deduplicate_from
deduplicate_from-distinct out [] h = h
deduplicate_from-distinct out (f ∷ fs) h =
    deduplicate_from-distinct (merge_into out f) fs (merge_into-distinct out f h)

-- Whatever the firings, no two findings that `deduplicate` leaves share rule and subject.
pub deduplicate-HaveDistinctKeys : (fs : List Finding) → HaveDistinctKeys (deduplicate fs)
unfolding deduplicate
deduplicate-HaveDistinctKeys fs = deduplicate_from-distinct [] fs tt
