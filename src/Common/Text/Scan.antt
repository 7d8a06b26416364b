-- ===== src/Common/Text/Scan.antt =====
-- Equality, prefixes, suffixes and substrings of a text, with their specifications.
use Prim.Native.Nat.{ℕ, ◌+◌}
use Prim.Native.Char.{code}
use Prim.Native.String.{String}
use mathlib.Core.Path.{◌≡◌, refl, sym, ap, ap₂, ◌∙◌, ◌≡⟨◌⟩◌, ◌∎}
use mathlib.Core.Logic.{◌↔◌, inl, inr}
use mathlib.Core.Bool.{Bool, true, false, ◌&&◌, ◌||◌}
use mathlib.Core.Option
use mathlib.Core.Option.{Option, none, some}
use mathlib.Core.List.{List, [], ◌∷◌, ◌++◌, reverse, reverse-append, reverse-reverse}
use native.Mathlib.Omega.{arith}
use install_scope.Common.Tests.{ltb, ◌==◌, if◌then◌else◌, is_some, Bool-cases, Option-cases}

abbrev pub Text : Type 0
Text = List ℕ

-- The code points of a literal.
abbrev pub text : String → Text
text String.[] = []
text (String.◌∷◌ c s) = code c ∷ text s

-- `char::len_utf8` and `str::len`, which counts bytes.
unfoldable pub len_utf8 : ℕ → ℕ
len_utf8 c = if ltb c 128 then 1 else if ltb c 2048 then 2 else if ltb c 65536 then 3 else 4

unfoldable pub byte_len : Text → ℕ
unfolding len_utf8
byte_len [] = 0
byte_len (c ∷ s) = len_utf8 c + byte_len s

-- `==` on `str`
unfoldable pub text_eq : Text → Text → Bool
text_eq [] [] = true
text_eq (a ∷ s) (b ∷ t) = a == b && text_eq s t
text_eq _ _ = false

pub text_eq_refl : (s : Text) → text_eq s s ≡ true
unfolding text_eq
text_eq_refl [] = refl
text_eq_refl (a ∷ s) = ground (arith, text_eq_refl s)

pub text_eq_sound : (s t : Text) → text_eq s t ≡ true → s ≡ t
unfolding text_eq
text_eq_sound [] [] h = refl
text_eq_sound (a ∷ s) (b ∷ t) h = ground (arith, text_eq_sound s t)
text_eq_sound [] (b ∷ t) h = ground arith
text_eq_sound (a ∷ s) [] h = ground arith

pub text_eq_iff : (s t : Text) → (text_eq s t ≡ true) ↔ (s ≡ t)
text_eq_iff s t = (text_eq_sound s t, λ e. ap (text_eq s) (sym e) ∙ text_eq_refl s)

-- `str::strip_prefix`
unfoldable pub strip_prefix : Text → Text → Option Text
strip_prefix [] s = some s
strip_prefix (a ∷ p) [] = none
strip_prefix (a ∷ p) (b ∷ s) = let rest = strip_prefix p s in if a == b then rest else none

pub strip_prefix-eq-some : (p s r : Text) → strip_prefix p s ≡ some r → s ≡ p ++ r
unfolding strip_prefix
strip_prefix-eq-some [] s r h = ground arith
strip_prefix-eq-some (a ∷ p) [] r h = ground arith
strip_prefix-eq-some (a ∷ p) (b ∷ s) r h = ground (arith, strip_prefix-eq-some p s r)

pub strip_prefix-append : (p r : Text) → strip_prefix p (p ++ r) ≡ some r
unfolding strip_prefix
strip_prefix-append [] r = refl
strip_prefix-append (a ∷ p) r = ground (arith, strip_prefix-append p r)

-- `str::starts_with`
unfoldable pub starts_with : Text → Text → Bool
unfolding strip_prefix
starts_with p s = is_some (strip_prefix p s)

abbrev pub IsPrefix : Text → Text → Type 0
IsPrefix p s = (r : Text) × (s ≡ p ++ r)

pub starts_with_iff : (p s : Text) → (starts_with p s ≡ true) ↔ IsPrefix p s
unfolding starts_with
starts_with_iff p s = (
  λ h. elim (Option-cases (strip_prefix p s)) [
    | inl e ↦ ground arith
    | inr (r, e) ↦ (r, strip_prefix-eq-some p s r e)
  ],
  λ (r, e). ap (λ t. is_some (strip_prefix p t)) e ∙ ap is_some (strip_prefix-append p r),
)

-- `str::strip_suffix` and `str::ends_with`
unfoldable pub strip_suffix : Text → Text → Option Text
unfolding strip_prefix
strip_suffix p s = Option.map reverse (strip_prefix (reverse p) (reverse s))

unfoldable pub ends_with : Text → Text → Bool
unfolding strip_suffix
ends_with p s = is_some (strip_suffix p s)

pub strip_suffix-eq-some : (p s r : Text) → strip_suffix p s ≡ some r → s ≡ r ++ p
unfolding strip_suffix
strip_suffix-eq-some p s r h =
    let (q, e, k) = (Option.map-eq-some_iff _ _).0 h in
    s
    ≡⟨ sym (reverse-reverse s) ⟩ reverse (reverse s)
    ≡⟨ ap reverse (strip_prefix-eq-some (reverse p) (reverse s) q e) ⟩ reverse (reverse p ++ q)
    ≡⟨ reverse-append (reverse p) q ⟩ reverse q ++ reverse (reverse p)
    ≡⟨ ap₂ ◌++◌ k (reverse-reverse p) ⟩ r ++ p ∎

pub strip_suffix-append : (p r : Text) → strip_suffix p (r ++ p) ≡ some r
unfolding strip_suffix
strip_suffix-append p r =
    rw (reverse-append r p)
      (rw (strip_prefix-append (reverse p) (reverse r)) (ap some (reverse-reverse r)))

abbrev pub IsSuffix : Text → Text → Type 0
IsSuffix p s = (r : Text) × (s ≡ r ++ p)

pub ends_with_iff : (p s : Text) → (ends_with p s ≡ true) ↔ IsSuffix p s
unfolding ends_with
ends_with_iff p s = (
  λ h. elim (Option-cases (strip_suffix p s)) [
    | inl e ↦ ground arith
    | inr (r, e) ↦ (r, strip_suffix-eq-some p s r e)
  ],
  λ (r, e). ap (λ t. is_some (strip_suffix p t)) e ∙ ap is_some (strip_suffix-append p r),
)

-- `str::contains` with a text
unfoldable pub contains_text : Text → Text → Bool
unfolding starts_with
contains_text needle [] = starts_with needle []
contains_text needle (c ∷ s) = starts_with needle (c ∷ s) || contains_text needle s

-- `needle` stands in the text, between what comes before it and what comes after.
abbrev pub Occurs : Text → Text → Type 0
Occurs needle s = (l r : Text) × (s ≡ l ++ needle ++ r)

pub contains_text-Occurs : (needle s : Text) → contains_text needle s ≡ true → Occurs needle s
unfolding contains_text
contains_text-Occurs needle [] h = let (r, e) = (starts_with_iff needle []).0 h in ([], r, e)
contains_text-Occurs needle (c ∷ s) h = elim (Bool-cases (starts_with needle (c ∷ s))) [
  | inl yes_here ↦ let (r, e) = (starts_with_iff needle (c ∷ s)).0 yes_here in ([], r, e)
  | inr not_here ↦
      let (l, r, e) = contains_text-Occurs needle s (ground arith) in (c ∷ l, r, ap (◌∷◌ c) e)
]

-- `str::contains` with a character
abbrev pub contains_char : ℕ → Text → Bool
contains_char c [] = false
contains_char c (x ∷ s) = x == c || contains_char c s
