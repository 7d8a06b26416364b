-- ===== src/Common/Compare.antt =====
-- Comparison functions (`Ord::cmp`, `Ordering::then`, a reversed or a keyed comparison) and the laws
-- that a sort needs of one.
use Prim.Native.Nat.{compare, Ordering}
use mathlib.Core.Path.{◌≡◌, refl, ap}
use mathlib.Core.Logic.{◌≢◌}
use mathlib.Core.List.{[], ◌∷◌}
use native.Mathlib.Omega.{arith}
use install_scope.Common.Text.{Text}
use install_scope.Common.Text.Order.{text_cmp}

-- `Ordering::reverse`
abbrev pub flip : Ordering → Ordering
flip Ordering.lt = Ordering.gt
flip Ordering.eq = Ordering.eq
flip Ordering.gt = Ordering.lt

-- `Ordering::then`
abbrev pub and_then : Ordering → Ordering → Ordering
and_then Ordering.lt o = Ordering.lt
and_then Ordering.eq o = o
and_then Ordering.gt o = Ordering.gt

abbrev pub Comparison {ℓ} : Type ℓ → Type ℓ
Comparison A = A → A → Ordering

-- A total preorder: reversing the arguments reverses the answer, `lt` is transitive, and values that
-- compare equal compare alike with every other.
pub record IsLawful {ℓ} {A : Type ℓ} (cmp : Comparison A) : Type ℓ where
  pub reversed : (a b : A) → cmp b a ≡ flip (cmp a b)
  pub lt_trans : (a b c : A) → cmp a b ≡ Ordering.lt → cmp b c ≡ Ordering.lt → cmp a c ≡ Ordering.lt
  pub alike : (a b c : A) → cmp a b ≡ Ordering.eq → cmp a c ≡ cmp b c

abbrev pub compare_by {ℓ κ} : {A : Type ℓ} {K : Type κ} → (A → K) → Comparison K → Comparison A
compare_by key cmp a b = cmp (key a) (key b)

abbrev pub reverse_by {ℓ κ} : {A : Type ℓ} {K : Type κ} → (A → K) → Comparison K → Comparison A
reverse_by key cmp a b = cmp (key b) (key a)

abbrev pub lexicographic {ℓ} : {A : Type ℓ} → Comparison A → Comparison A → Comparison A
lexicographic first second a b = and_then (first a b) (second a b)

module _ {ℓ} {A : Type ℓ} {cmp : Comparison A} (l : IsLawful cmp) where
  -- "Not after" is transitive, and of two items one is not after the other.
  pub not_after_trans :
      (a b c : A) → cmp a b ≢ Ordering.gt → cmp b c ≢ Ordering.gt → cmp a c ≢ Ordering.gt
  not_after_trans a b c p q = ground (
    arith,
    l.lt_trans a b c,
    l.alike a b c,
    l.alike b c a,
    l.reversed a b,
    l.reversed b c,
    l.reversed a c,
  )

  pub not_after_of_after : (a b : A) → cmp a b ≡ Ordering.gt → cmp b a ≢ Ordering.gt
  not_after_of_after a b p = ground (arith, l.reversed a b)

pub compare-IsLawful : IsLawful compare
compare-IsLawful = record {
  reversed = λ a b. ground arith;
  lt_trans = λ a b c p q. ground arith;
  alike = λ a b c p. ground arith;
}

module _ {ℓ κ} {A : Type ℓ} {K : Type κ} (key : A → K) {cmp : Comparison K} (l : IsLawful cmp) where
  pub compare_by-IsLawful : IsLawful (compare_by key cmp)
  compare_by-IsLawful = record {
    reversed = λ a b. l.reversed (key a) (key b);
    lt_trans = λ a b c p q. l.lt_trans (key a) (key b) (key c) p q;
    alike = λ a b c p. l.alike (key a) (key b) (key c) p;
  }

  pub reverse_by-IsLawful : IsLawful (reverse_by key cmp)
  reverse_by-IsLawful = record {
    reversed = λ a b. l.reversed (key b) (key a);
    lt_trans = λ a b c p q. l.lt_trans (key c) (key b) (key a) q p;
    alike = λ a b c p. ground (
      arith,
      l.reversed (key b) (key a),
      l.reversed (key b) (key c),
      l.reversed (key a) (key c),
      l.alike (key a) (key b) (key c),
    );
  }

module _ {ℓ} {A : Type ℓ} {first second : Comparison A} (l : IsLawful first)
    (m : IsLawful second) where
  lexicographic_lt_trans :
      (a b c : A)
      → lexicographic first second a b ≡ Ordering.lt
      → lexicographic first second b c ≡ Ordering.lt
      → lexicographic first second a c ≡ Ordering.lt
  lexicographic_lt_trans a b c p q = ground (
    arith,
    l.lt_trans a b c,
    l.alike a b c,
    l.reversed a b,
    l.reversed b c,
    l.reversed a c,
    l.alike b c a,
    m.lt_trans a b c,
  )

  pub lexicographic-IsLawful : IsLawful (lexicographic first second)
  lexicographic-IsLawful = record {
    reversed = λ a b. ground (arith, l.reversed a b, m.reversed a b);
    lt_trans = lexicographic_lt_trans;
    alike = λ a b c p. ground (arith, l.alike a b c, m.alike a b c);
  }

text_cmp_reversed : (s t : Text) → text_cmp t s ≡ flip (text_cmp s t)
unfolding text_cmp
text_cmp_reversed [] [] = refl
text_cmp_reversed [] (b ∷ t) = refl
text_cmp_reversed (a ∷ s) [] = refl
text_cmp_reversed (a ∷ s) (b ∷ t) = ground (arith, text_cmp_reversed s t)

text_cmp_lt_trans :
    (s t u : Text)
    → text_cmp s t ≡ Ordering.lt
    → text_cmp t u ≡ Ordering.lt
    → text_cmp s u ≡ Ordering.lt
unfolding text_cmp
text_cmp_lt_trans [] [] u p q = ground arith
text_cmp_lt_trans [] (b ∷ t) [] p q = ground arith
text_cmp_lt_trans [] (b ∷ t) (c ∷ u) p q = refl
text_cmp_lt_trans (a ∷ s) [] u p q = ground arith
text_cmp_lt_trans (a ∷ s) (b ∷ t) [] p q = ground arith
text_cmp_lt_trans (a ∷ s) (b ∷ t) (c ∷ u) p q = ground (arith, text_cmp_lt_trans s t u)

-- Texts that compare equal are equal.
pub text_cmp-eq : (s t : Text) → text_cmp s t ≡ Ordering.eq → s ≡ t
unfolding text_cmp
text_cmp-eq [] [] p = refl
text_cmp-eq [] (b ∷ t) p = ground arith
text_cmp-eq (a ∷ s) [] p = ground arith
text_cmp-eq (a ∷ s) (b ∷ t) p = ground (arith, text_cmp-eq s t)

pub text_cmp-IsLawful : IsLawful text_cmp
text_cmp-IsLawful = record {
  reversed = text_cmp_reversed;
  lt_trans = text_cmp_lt_trans;
  alike = λ s t u p. ap (λ v. text_cmp v u) (text_cmp-eq s t p);
}

pub text_cmp_refl : (s : Text) → text_cmp s s ≡ Ordering.eq
unfolding text_cmp
text_cmp_refl [] = refl
text_cmp_refl (a ∷ s) = ground (arith, text_cmp_refl s)
