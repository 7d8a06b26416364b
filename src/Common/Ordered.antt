-- ===== src/Common/Ordered.antt =====
-- `BTreeMap` and `BTreeSet`: lists in the order of the keys, over their comparison.
use Prim.Native.Nat.{Ordering}
use mathlib.Core.Path.{◌≡◌, refl, sym, ap, ◌∙◌}
use mathlib.Core.Logic.{◌≢◌, ◌↔◌, ◌⊎◌, inl, inr}
use mathlib.Core.List.{List, [], ◌∷◌}
use mathlib.Core.Option.{Option, none, some}
use native.Mathlib.Omega.{arith}
use install_scope.Common.Tests.{Option-cases}
use install_scope.Common.Lists.{All, All-map, Any}
use install_scope.Common.Search.{Any-cons_iff}
use install_scope.Common.Compare.{Comparison}

module _ {ℓ κ} {K : Type ℓ} {V : Type κ} (cmp : Comparison K) where
  -- `BTreeMap::get`
  abbrev pub lookup : K → List (K × V) → Option V
  lookup key [] = none
  lookup key ((k, v) ∷ rest) =
      let later = lookup key rest in elim (cmp key k) [ Ordering.eq ↦ some v | _ ↦ later ]

  -- `BTreeMap::insert`
  abbrev pub put : K → V → List (K × V) → List (K × V)
  put key value [] = (key, value) ∷ []
  put key value ((k, v) ∷ rest) =
      let later = put key value rest in
      elim (cmp key k) [
        | Ordering.lt ↦ (key, value) ∷ (k, v) ∷ rest
        | Ordering.eq ↦ (key, value) ∷ rest
        | Ordering.gt ↦ (k, v) ∷ later
      ]

  -- `BTreeMap::remove`
  abbrev pub remove : K → List (K × V) → List (K × V)
  remove key [] = []
  remove key ((k, v) ∷ rest) =
      let later = remove key rest in elim (cmp key k) [ Ordering.eq ↦ rest | _ ↦ (k, v) ∷ later ]

  -- `entry(key).or_insert(value)`
  abbrev pub or_insert : K → V → List (K × V) → List (K × V)
  or_insert key value m =
      let grown = put key value m in elim (lookup key m) [ some _ ↦ m | none ↦ grown ]

abbrev pub keys {ℓ κ} : {K : Type ℓ} {V : Type κ} → List (K × V) → List K
keys [] = []
keys ((k, _) ∷ rest) = k ∷ keys rest

module _ {ℓ} {K : Type ℓ} (cmp : Comparison K) where
  -- `BTreeSet::insert`
  abbrev pub add : K → List K → List K
  add key [] = key ∷ []
  add key (k ∷ rest) =
      let later = add key rest in
      elim (cmp key k) [
        | Ordering.lt ↦ key ∷ k ∷ rest
        | Ordering.eq ↦ k ∷ rest
        | Ordering.gt ↦ k ∷ later
      ]

Ordering-eq-cases : (o : Ordering) → (o ≡ Ordering.eq) ⊎ (o ≢ Ordering.eq)
Ordering-eq-cases Ordering.lt = inr (λ h. cc)
Ordering-eq-cases Ordering.eq = inl refl
Ordering-eq-cases Ordering.gt = inr (λ h. cc)

-- A comparison that answers `eq` for equal keys, and only for those.
pub record IsExact {ℓ} {K : Type ℓ} (cmp : Comparison K) : Type ℓ where
  pub same : (a : K) → cmp a a ≡ Ordering.eq
  pub exact : (a b : K) → cmp a b ≡ Ordering.eq → a ≡ b

module _ {ℓ κ} {K : Type ℓ} {V : Type κ} {cmp : Comparison K} (e : IsExact cmp) where
  pub lookup-put_self : (k : K) (v : V) (m : List (K × V)) → lookup cmp k (put cmp k v m) ≡ some v
  lookup-put_self k v [] = ground (arith, e.same k)
  lookup-put_self k v ((j, w) ∷ m) = ground (arith, e.same k, lookup-put_self k v m)

  pub lookup-put_other :
      (i k : K) (v : V) (m : List (K × V))
      → cmp i k ≢ Ordering.eq
      → lookup cmp i (put cmp k v m) ≡ lookup cmp i m
  lookup-put_other i k v [] h = ground arith
  lookup-put_other i k v ((j, w) ∷ m) h = ground (arith, lookup-put_other i k v m h, e.exact k j)

  pub put-All {μ} :
      (P : K × V → Type μ) (k : K) (v : V) (m : List (K × V))
      → P (k, v)
      → All P m
      → All P (put cmp k v m)
  put-All P k v [] p h = (p, tt)
  put-All P k v ((j, w) ∷ m) p (q, h) =
      elim (cmp k j)
        as (λ o. All P (elim o [
          | Ordering.lt ↦ (k, v) ∷ (j, w) ∷ m
          | Ordering.eq ↦ (k, v) ∷ m
          | Ordering.gt ↦ (j, w) ∷ put cmp k v m
        ])) [
          | Ordering.lt ↦ (p, (q, h))
          | Ordering.eq ↦ (p, h)
          | Ordering.gt ↦ (q, put-All P k v m p h)
        ]

  -- What is found under a key is listed with it.
  pub lookup-listed :
      (k : K) (m : List (K × V)) {v : V} → lookup cmp k m ≡ some v → Any (λ entry. entry ≡ (k, v)) m
  lookup-listed k [] h = absurd (ground arith)
  lookup-listed k ((j, w) ∷ m) {v} h = elim (Ordering-eq-cases (cmp k j)) [
    | inl s ↦ Any.here (ground (arith, e.exact k j s))
    | inr n ↦ Any.there (lookup-listed k m (ground arith))
  ]

  pub keys-listed :
      (k : K) (m : List (K × V)) {v : V} → lookup cmp k m ≡ some v → Any (λ j. j ≡ k) (keys m)
  keys-listed k [] h = absurd (ground arith)
  keys-listed k ((j, w) ∷ m) {v} h = elim (Ordering-eq-cases (cmp k j)) [
    | inl s ↦ Any.here (sym (e.exact k j s))
    | inr n ↦ Any.there (keys-listed k m {v = v} (ground arith))
  ]

  -- Every entry is the one that its key finds.
  abbrev pub IsFunctional : List (K × V) → Type κ
  IsFunctional m = All (λ entry. lookup cmp entry.0 m ≡ some entry.1) m

  pub or_insert-IsFunctional :
      (k : K) (v : V) (m : List (K × V)) → IsFunctional m → IsFunctional (or_insert cmp k v m)
  or_insert-IsFunctional k v m h = elim (Option-cases (lookup cmp k m)) [
    | inl vacant ↦
        rw (vacant, or_insert)
          (put-All (λ entry. lookup cmp entry.0 (put cmp k v m) ≡ some entry.1) k v m
            (lookup-put_self k v m)
            (All-map (λ entry. lookup cmp entry.0 m ≡ some entry.1)
              (λ entry. lookup cmp entry.0 (put cmp k v m) ≡ some entry.1)
              (λ entry found.
                lookup-put_other entry.0 k v m
                  (λ s. ground (arith, ap (λ x. lookup cmp x m) (e.exact entry.0 k s)))
                ∙ found)
              m h))
    | inr (w, occupied) ↦ rw (occupied, or_insert) h
  ]

  pub lookup-or_insert_self :
      (k : K) (v : V) (m : List (K × V))
      → lookup cmp k (or_insert cmp k v m)
        ≡ elim (lookup cmp k m) [ some w ↦ some w | none ↦ some v ]
  lookup-or_insert_self k v m = ground (arith, lookup-put_self k v m)

  pub lookup-or_insert_other :
      (i k : K) (v : V) (m : List (K × V))
      → cmp i k ≢ Ordering.eq
      → lookup cmp i (or_insert cmp k v m) ≡ lookup cmp i m
  lookup-or_insert_other i k v m h = ground (arith, lookup-put_other i k v m h)

Any-cons_swap {ℓ κ} :
    {A : Type ℓ} {P : A → Type κ} {Q : Type κ} {x : A} {xs ys : List A}
    → Any P xs ↔ (Q ⊎ Any P ys)
    → Any P (x ∷ xs) ↔ (Q ⊎ Any P (x ∷ ys))
Any-cons_swap (to, from) = (
  λ h. elim (Any-cons_iff.0 h) [
    | inl p ↦ inr (Any.here p)
    | inr q ↦ elim (to q) [ inl r ↦ inl r | inr t ↦ inr (Any.there t) ]
  ],
  λ h. elim h [
    | inl q ↦ Any.there (from (inl q))
    | inr r ↦ elim (Any-cons_iff.0 r) [ inl p ↦ Any.here p | inr t ↦ Any.there (from (inr t)) ]
  ],
)

module _ {ℓ} {K : Type ℓ} {cmp : Comparison K} (e : IsExact cmp) where
  -- A key is in the set after an insertion exactly when it is the new one or was there.
  pub add_iff :
      (k i : K) (s : List K) → Any (λ j. j ≡ i) (add cmp k s) ↔ ((k ≡ i) ⊎ Any (λ j. j ≡ i) s)
  add_iff k i [] = Any-cons_iff
  add_iff k i (j ∷ s) =
      elim (cmp k j)
          as (λ o.
            (cmp k j ≡ o)
            → Any (λ x. x ≡ i)
                (elim o [
                  | Ordering.lt ↦ k ∷ j ∷ s
                  | Ordering.eq ↦ j ∷ s
                  | Ordering.gt ↦ j ∷ add cmp k s
                ])
              ↔ ((k ≡ i) ⊎ Any (λ x. x ≡ i) (j ∷ s))) [
                | Ordering.lt ↦ λ _. Any-cons_iff
                | Ordering.eq ↦ λ same. (
                  λ h. inr h,
                  λ h. elim h [ inl p ↦ Any.here (sym (e.exact k j same) ∙ p) | inr q ↦ q ],
                )
                | Ordering.gt ↦ λ _. Any-cons_swap (add_iff k i s)
              ]
        refl
