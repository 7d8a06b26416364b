-- ===== src/Common/Text/Trim.antt =====
-- `str::trim` and its one-sided variants.
use Prim.Native.Nat.{ℕ, zero, suc}
use mathlib.Core.Path.{◌≡◌, refl, sym, ap, ◌∙◌, subst}
use mathlib.Core.Bool.{Bool, true, false, ◌&&◌, ◌||◌}
use mathlib.Core.Option.{none, some}
use mathlib.Core.List.{
  [], ◌∷◌, ◌++◌, reverse, reverse-reverse, reverse-append, reverse-cons, append_assoc,
}
use mathlib.Core.Logic.{◌≢◌, ◌↔◌, inl, inr}
use native.Mathlib.Omega.{arith}
use install_scope.Common.Tests.{◌==◌, leb, Bool-cases}
use install_scope.Common.Lists.{length, All, Any, not-Any-nil}
use install_scope.Common.Search.{Any-later, Any-reverse}
use install_scope.Common.Text.Scan.{Text, strip_prefix, strip_prefix-append}

-- `char::is_whitespace`: the code points with Unicode's White_Space.
unfoldable pub is_whitespace : ℕ → Bool
is_whitespace c =
    leb 9 c && leb c 13
    || c == 32
    || c == 0x85
    || c == 0xa0
    || c == 0x1680
    || leb 0x2000 c && leb c 0x200a
    || c == 0x2028
    || c == 0x2029
    || c == 0x202f
    || c == 0x205f
    || c == 0x3000

-- `trim_start_matches` and `trim_end_matches` with a test of characters
unfoldable pub trim_start_where : (ℕ → Bool) → Text → Text
trim_start_where p [] = []
trim_start_where p (c ∷ s) =
    let rest = trim_start_where p s in elim (p c) [ true ↦ rest | false ↦ c ∷ s ]

unfoldable pub trim_end_where : (ℕ → Bool) → Text → Text
unfolding trim_start_where
trim_end_where p s = reverse (trim_start_where p (reverse s))

abbrev pub trim_end_matches : ℕ → Text → Text
trim_end_matches c = trim_end_where (λ x. x == c)

abbrev pub trim_start_matches : ℕ → Text → Text
trim_start_matches c = trim_start_where (λ x. x == c)

-- `trim`
unfoldable pub trim : Text → Text
unfolding trim_end_where is_whitespace
trim s = trim_end_where is_whitespace (trim_start_where is_whitespace s)

-- Some character of the text does not pass the test.
abbrev pub Stops : (ℕ → Bool) → Text → Type 0
Stops p s = Any (λ c. p c ≡ false) s

trim_start_where-Stops : (p : ℕ → Bool) (s : Text) → Stops p s → Stops p (trim_start_where p s)
unfolding trim_start_where
trim_start_where-Stops p [] h = h
trim_start_where-Stops p (c ∷ s) h = elim (Bool-cases (p c)) [
  | inl e ↦ rw (e, trim_start_where) (trim_start_where-Stops p s (Any-later h (λ f. ground arith)))
  | inr e ↦ rw (e, trim_start_where) (Any.here e)
]

Stops-of_trim_start_where : (p : ℕ → Bool) (s : Text) → trim_start_where p s ≢ [] → Stops p s
unfolding trim_start_where
Stops-of_trim_start_where p [] h = absurd (h refl)
Stops-of_trim_start_where p (c ∷ s) h = elim (Bool-cases (p c)) [
  | inl e ↦ Any.there (Stops-of_trim_start_where p s (rw (e, trim_start_where) at h))
  | inr e ↦ Any.here e
]

Stops-ne-nil : (p : ℕ → Bool) (s : Text) → Stops p s → s ≢ []
Stops-ne-nil p [] h = λ _. not-Any-nil h
Stops-ne-nil p (c ∷ s) h = λ e. ground arith

reverse-nil_of : (s : Text) → reverse s ≡ [] → s ≡ []
reverse-nil_of s e = sym (reverse-reverse s) ∙ ap reverse e

trim_end_where-ne-nil_iff : (p : ℕ → Bool) (s : Text) → (trim_end_where p s ≢ []) ↔ Stops p s
unfolding trim_end_where
trim_end_where-ne-nil_iff p s = (
  λ h.
      subst (Stops p) (reverse-reverse s)
        (Any-reverse (reverse s) (Stops-of_trim_start_where p (reverse s) (λ e. h (ap reverse e)))),
  λ h e.
      Stops-ne-nil p _ (trim_start_where-Stops p (reverse s) (Any-reverse s h))
        (reverse-nil_of _ e),
)

-- A trimmed text is not empty exactly when some character is no white space.
pub trim-ne-nil_iff : (s : Text) → (trim s ≢ []) ↔ Stops is_whitespace s
unfolding trim
trim-ne-nil_iff s = (
  λ h. Stops-of_trim_start_where is_whitespace s (λ e. h (ap (trim_end_where is_whitespace) e)),
  λ h. (trim_end_where-ne-nil_iff is_whitespace _).1 (trim_start_where-Stops is_whitespace s h),
)

-- `trim_start_matches` with a text. Each round takes at least one character off, so the length of
-- the text is fuel enough when the pattern is not empty.
trim_start_text_from : ℕ → Text → Text → Text
trim_start_text_from zero p s = s
trim_start_text_from (suc fuel) p s = elim (strip_prefix p s) [
  | none ↦ s
  | some rest ↦ trim_start_text_from fuel p rest
]

unfoldable pub trim_start_text : Text → Text → Text
unfolding trim_start_text_from strip_prefix
trim_start_text p s = trim_start_text_from (length s) p s

trim_start_where-suffix :
    (p : ℕ → Bool) (s : Text) → (dropped : Text) × (s ≡ dropped ++ trim_start_where p s)
unfolding trim_start_where
trim_start_where-suffix p [] = ([], refl)
trim_start_where-suffix p (c ∷ s) = elim (Bool-cases (p c)) [
  | inl gone ↦
      let (dropped, e) = trim_start_where-suffix p s in
      (c ∷ dropped, rw (trim_start_where, gone) (ap (λ t. c ∷ t) e))
  | inr kept ↦ ([], rw (trim_start_where, kept) refl)
]

-- What is left after trimming the end is how the text starts.
pub trim_end_where-prefix :
    (p : ℕ → Bool) (s : Text) → (dropped : Text) × (s ≡ trim_end_where p s ++ dropped)
unfolding trim_end_where
trim_end_where-prefix p s =
    let (dropped, e) = trim_start_where-suffix p (reverse s) in
    (
      reverse dropped,
      sym (reverse-reverse s)
          ∙ ap reverse e
          ∙ reverse-append dropped (trim_start_where p (reverse s)),
    )

-- What is trimmed at the start ends before a character that stays.
trim_start_where-kept :
    (p : ℕ → Bool) (s : Text) (c : ℕ) (t : Text)
    → p c ≡ false
    → (kept : Text) × (trim_start_where p (s ++ c ∷ t) ≡ kept ++ c ∷ t)
unfolding trim_start_where
trim_start_where-kept p [] c t h = ([], rw (h, trim_start_where) refl)
trim_start_where-kept p (x ∷ s) c t h = elim (Bool-cases (p x)) [
  | inl e ↦ let (kept, k) = trim_start_where-kept p s c t h in (kept, rw (e, trim_start_where) k)
  | inr e ↦ (x ∷ s, rw (e, trim_start_where) refl)
]

pub trim_start_where-blanks :
    (p : ℕ → Bool) (blanks : Text) (c : ℕ) (t : Text)
    → All (λ b. p b ≡ true) blanks
    → p c ≡ false
    → trim_start_where p (blanks ++ c ∷ t) ≡ c ∷ t
unfolding trim_start_where
trim_start_where-blanks p [] c t h k = rw (k, trim_start_where) refl
trim_start_where-blanks p (b ∷ blanks) c t (e, h) k =
    rw (e, trim_start_where) (trim_start_where-blanks p blanks c t h k)

pub reverse-middle :
    (s : Text) (c : ℕ) (t : Text) → reverse (s ++ c ∷ t) ≡ reverse t ++ c ∷ reverse s
reverse-middle s c t =
    reverse-append s (c ∷ t)
    ∙ ap (λ l. l ++ reverse s) (reverse-cons c t)
    ∙ append_assoc (reverse t) (c ∷ []) (reverse s)

pub trim_end_where-kept :
    (p : ℕ → Bool) (s : Text) (c : ℕ) (t : Text)
    → p c ≡ false
    → (kept : Text) × (trim_end_where p (s ++ c ∷ t) ≡ s ++ c ∷ kept)
unfolding trim_end_where
trim_end_where-kept p s c t h =
    let (kept, e) = trim_start_where-kept p (reverse t) c (reverse s) h in
    (
      reverse kept,
      ap (λ l. reverse (trim_start_where p l)) (reverse-middle s c t)
          ∙ ap reverse e
          ∙ reverse-middle kept c (reverse s)
          ∙ ap (λ l. l ++ c ∷ reverse kept) (reverse-reverse s),
    )

-- Blanks at the start of a text go, and what stands between visible characters stays.
pub trim-kept :
    (blanks : Text) (b : ℕ) (s : Text) (c : ℕ) (t : Text)
    → All (λ x. is_whitespace x ≡ true) blanks
    → is_whitespace b ≡ false
    → is_whitespace c ≡ false
    → (kept : Text) × (trim (blanks ++ b ∷ (s ++ c ∷ t)) ≡ b ∷ (s ++ c ∷ kept))
unfolding trim
trim-kept blanks b s c t white visible last =
    let (kept, e) = trim_end_where-kept is_whitespace (b ∷ s) c t last in
    (
      kept,
      ap (trim_end_where is_whitespace)
            (trim_start_where-blanks is_whitespace blanks b (s ++ c ∷ t) white visible)
          ∙ e,
    )

from-none : (fuel : ℕ) (p s : Text) → strip_prefix p s ≡ none → trim_start_text_from fuel p s ≡ s
unfolding trim_start_text_from
from-none zero p s h = refl
from-none (suc fuel) p s h = rw (h, trim_start_text_from) refl

from-some :
    (fuel : ℕ) (p s rest : Text)
    → strip_prefix p s ≡ some rest
    → trim_start_text_from (suc fuel) p s ≡ trim_start_text_from fuel p rest
unfolding trim_start_text_from
from-some fuel p s rest h = rw (h, trim_start_text_from) refl

pub trim_start_text-none : (p s : Text) → strip_prefix p s ≡ none → trim_start_text p s ≡ s
unfolding trim_start_text
trim_start_text-none p s h = from-none (length s) p s h

-- The text goes once where it stands once.
pub trim_start_text-once :
    (c : ℕ) (p s : Text)
    → strip_prefix (c ∷ p) s ≡ none
    → trim_start_text (c ∷ p) ((c ∷ p) ++ s) ≡ s
unfolding trim_start_text
trim_start_text-once c p s h =
    from-some (length (p ++ s)) (c ∷ p) ((c ∷ p) ++ s) s (strip_prefix-append (c ∷ p) s)
    ∙ from-none (length (p ++ s)) (c ∷ p) s h
