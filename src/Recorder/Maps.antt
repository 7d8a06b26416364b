-- ===== src/Recorder/Maps.antt =====
-- recorder/src/fdtable.rs: `HashMap` as an association list with one entry per key, over a test for
-- equal keys.
use install_scope.Common.{
  ◌≡◌, sym, ap, ◌∙◌, ◌↔◌, Bool, true, false, Option, none, some, List, [], ◌∷◌, if◌then◌else◌,
  arith, not_true,
}

module _ {ℓ κ} {K : Type ℓ} {V : Type κ} (same : K → K → Bool) where
  -- `HashMap::get`
  abbrev pub lookup : K → List (K × V) → Option V
  lookup key [] = none
  lookup key ((k, v) ∷ rest) = let later = lookup key rest in if same key k then some v else later

  -- `HashMap::remove`
  abbrev pub remove : K → List (K × V) → List (K × V)
  remove key [] = []
  remove key ((k, v) ∷ rest) =
      let others = remove key rest in if same key k then others else (k, v) ∷ others

  -- `HashMap::insert`
  abbrev pub insert : K → V → List (K × V) → List (K × V)
  insert key value m = (key, value) ∷ remove key m

module _ {ℓ} {K : Type ℓ} (same : K → K → Bool)
    (same_iff : (a b : K) → (same a b ≡ true) ↔ (a ≡ b)) where
  lookup_other :
      (key other k : K) → same key other ≡ false → same other k ≡ true → same key k ≡ false
  lookup_other key other k apart here = not_true (same key k) (λ e.
      ground
        (arith, (same_iff key other).1 ((same_iff key k).0 e ∙ sym ((same_iff other k).0 here))))

  lookup_same :
      (key other k : K) → same key other ≡ true → same other k ≡ false → same key k ≡ false
  lookup_same key other k equal apart = ap (λ x. same x k) ((same_iff key other).0 equal) ∙ apart

module _ {ℓ κ} {K : Type ℓ} {V : Type κ} (same : K → K → Bool)
    (same_iff : (a b : K) → (same a b ≡ true) ↔ (a ≡ b)) where
  pub lookup-remove :
      (key gone : K) (m : List (K × V))
      → lookup same key (remove same gone m) ≡ (if same key gone then none else lookup same key m)
  lookup-remove key gone [] = ground arith
  lookup-remove key gone ((k, v) ∷ rest) = ground (
    arith,
    lookup-remove key gone rest,
    lookup_other same same_iff key gone k,
    lookup_same same same_iff key gone k,
  )

  pub lookup-insert :
      (key new : K) (value : V) (m : List (K × V))
      → lookup same key (insert same new value m)
        ≡ (if same key new then some value else lookup same key m)
  lookup-insert key new value m = ground (arith, lookup-remove key new m)
