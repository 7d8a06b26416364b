-- ===== src/Recorder/Merging/Sums.antt =====
-- Sums over the entries of lists and maps, and maps that hold a key once.
use install_scope.Common.{
  ℕ, ◌+◌, ◌≡◌, ◌≢◌, refl, sym, ap, ◌↔◌, ◌⊎◌, inl, inr, Bool, true, false, Option, none, some, List,
  [], ◌∷◌, ◌++◌, arith, Bool-cases, All, AllPairs, Ordering,
}
use mathlib.Core.Path.{subst}
use install_scope.Common.Compare.{Comparison}
use install_scope.Common.Sort.{insert, sort_by}
use install_scope.Common.Ordered
use install_scope.Recorder.Maps

abbrev pub sum_by {ℓ} : {A : Type ℓ} → (A → ℕ) → List A → ℕ
sum_by w [] = 0
sum_by w (x ∷ xs) = w x + sum_by w xs

module _ {ℓ} {A : Type ℓ} (w : A → ℕ) where
  pub sum_by-append : (xs ys : List A) → sum_by w (xs ++ ys) ≡ sum_by w xs + sum_by w ys
  sum_by-append [] ys = omega arith
  sum_by-append (x ∷ xs) ys = omega (arith, sum_by-append xs ys)

  module _ (cmp : Comparison A) where
    sum_by-insert : (x : A) (xs : List A) → sum_by w (insert cmp x xs) ≡ w x + sum_by w xs
    unfolding insert
    sum_by-insert x [] = refl
    sum_by-insert x (y ∷ ys) = ground (arith, sum_by-insert x ys)

    pub sum_by-sort_by : (xs : List A) → sum_by w (sort_by cmp xs) ≡ sum_by w xs
    unfolding sort_by
    sum_by-sort_by [] = refl
    sum_by-sort_by (x ∷ xs) = omega (arith, sum_by-insert x (sort_by cmp xs), sum_by-sort_by xs)

-- The weight of the values of a map.
abbrev pub total {ℓ κ} : {K : Type ℓ} {V : Type κ} → (V → ℕ) → List (K × V) → ℕ
total w = sum_by (λ e. w e.1)

abbrev pub weight_of {ℓ} : {V : Type ℓ} → (V → ℕ) → Option V → ℕ
weight_of w none = 0
weight_of w (some v) = w v

module _ {ℓ κ} {K : Type ℓ} {V : Type κ} (cmp : Comparison K) (w : V → ℕ) where
  pub total-put :
      (k : K) (v : V) (m : List (K × V))
      → All (λ e. cmp k e.0 ≢ Ordering.eq) m
      → total w (Ordered.put cmp k v m) ≡ w v + total w m
  total-put k v [] h = refl
  total-put k v ((j, x) ∷ m) (apart, h) = ground (arith, total-put k v m h)

  pub total-remove :
      (k : K) (m : List (K × V))
      → total w m ≡ weight_of w (Ordered.lookup cmp k m) + total w (Ordered.remove cmp k m)
        ⊎ (Ordered.lookup cmp k m ≡ none)
  total-remove k [] = inr refl
  total-remove k ((j, x) ∷ m) = ground (arith, total-remove k m)

module _ {ℓ κ} {K : Type ℓ} {V : Type κ} (same : K → K → Bool)
    (same_iff : (a b : K) → (same a b ≡ true) ↔ (a ≡ b)) where
  -- No key is in the map twice.
  abbrev pub IsUnique : List (K × V) → Type 0
  IsUnique = AllPairs (λ a b. same a.0 b.0 ≡ false)

  module _ {μ} (P : K × V → Type μ) where
    pub remove-All : (k : K) (m : List (K × V)) → All P m → All P (Maps.remove same k m)
    remove-All k [] h = tt
    remove-All k ((j, x) ∷ m) (p, h) = ground (arith, remove-All k m h)

  pub remove-IsUnique : (k : K) (m : List (K × V)) → IsUnique m → IsUnique (Maps.remove same k m)
  remove-IsUnique k [] h = tt
  remove-IsUnique k ((j, x) ∷ m) (p, h) = elim (Bool-cases (same k j)) [
    | inl e ↦ rw (e, Maps.remove) (remove-IsUnique k m h)
    | inr e ↦
        rw (e, Maps.remove) (remove-All (λ b. same j b.0 ≡ false) k m p, remove-IsUnique k m h)
  ]

  remove_absent : (k : K) (m : List (K × V)) → All (λ e. same k e.0 ≡ false) (Maps.remove same k m)
  remove_absent k [] = tt
  remove_absent k ((j, x) ∷ m) = ground (arith, remove_absent k m)

  pub insert-IsUnique :
      (k : K) (v : V) (m : List (K × V)) → IsUnique m → IsUnique (Maps.insert same k v m)
  insert-IsUnique k v m h = (remove_absent k m, remove-IsUnique k m h)

  remove-of_absent :
      (k : K) (m : List (K × V)) → All (λ e. same k e.0 ≡ false) m → Maps.remove same k m ≡ m
  remove-of_absent k [] h = refl
  remove-of_absent k ((j, x) ∷ m) (p, h) = rw (p, remove-of_absent k m h)

  pub remove-remove :
      (k : K) (m : List (K × V)) → Maps.remove same k (Maps.remove same k m) ≡ Maps.remove same k m
  remove-remove k m = remove-of_absent k (Maps.remove same k m) (remove_absent k m)

  -- What is looked up is what a removal takes off.
  pub total-lookup-remove :
      (w : V → ℕ) (k : K) (m : List (K × V))
      → IsUnique m
      → total w m ≡ weight_of w (Maps.lookup same k m) + total w (Maps.remove same k m)
  total-lookup-remove w k [] h = refl
  total-lookup-remove w k ((j, x) ∷ m) (p, h) = elim (Bool-cases (same k j)) [
    | inl e ↦
        rw (e, Maps.remove, Maps.lookup)
          (ap (λ r. w x + total w r)
            (sym (
              remove-of_absent k m
                (subst (λ i. All (λ b. same i b.0 ≡ false) m) (sym ((same_iff k j).0 e)) p))))
    | inr e ↦ rw (e, Maps.remove, Maps.lookup) (omega (arith, total-lookup-remove w k m h))
  ]

  -- What is looked up has what every entry has.
  pub lookup-All {μ} :
      (P : V → Type μ) (k : K) (m : List (K × V)) {v : V}
      → All (λ e. P e.1) m
      → Maps.lookup same k m ≡ some v
      → P v
  lookup-All P k [] h found = absurd (ground arith)
  lookup-All P k ((j, x) ∷ m) {v} (p, h) found = elim (Bool-cases (same k j)) [
    | inl e ↦ subst P {x = x} {y = v} (ground arith) p
    | inr e ↦ lookup-All P k m h (ground arith)
  ]
