-- ===== src/Common/Sort.antt =====
-- `slice::sort_by`: the library documents a stable sort, which is a function of the comparison and
-- the slice alone. Insertion from the right is that function.
use Prim.Native.Nat.{ℕ, zero, suc, Ordering}
use mathlib.Core.Path.{◌≡◌, refl}
use mathlib.Core.Logic.{◌≢◌, ◌↔◌, inl, inr}
use mathlib.Core.List.{List, [], ◌∷◌, Perm}
use mathlib.Core.List.Perm
use native.Mathlib.Omega.{arith}
use install_scope.Common.Lists.{
  All, All-map, All-take, All-drop, AllPairs, Any, Any-cons, take, drop,
}
use install_scope.Common.Search.{Any-cons_iff}
use install_scope.Common.Compare.{Comparison, IsLawful, not_after_trans, not_after_of_after}

-- `x` before the first item `y` that does not come before it; `later` is the rest with `x` put in.
abbrev place {ℓ} : {A : Type ℓ} → Ordering → A → A → List A → List A → List A
place Ordering.gt x y ys later = y ∷ later
place _ x y ys later = x ∷ y ∷ ys

module _ {ℓ} {A : Type ℓ} (cmp : Comparison A) where
  -- A new item goes in front of the items that compare equal: it stood before them.
  unfoldable pub insert : A → List A → List A
  insert x [] = x ∷ []
  insert x (y ∷ ys) = place (cmp x y) x y ys (insert x ys)

  unfoldable pub sort_by : List A → List A
  unfolding insert
  sort_by [] = []
  sort_by (x ∷ xs) = insert x (sort_by xs)

  abbrev pub NotAfter : A → A → Type 0
  NotAfter a b = cmp a b ≢ Ordering.gt

  -- No item of the list comes after a later one.
  abbrev pub IsSorted : List A → Type 0
  IsSorted [] = Unit
  IsSorted (x ∷ xs) = All (NotAfter x) xs × IsSorted xs

place-perm {ℓ} :
    {A : Type ℓ} (o : Ordering) (x y : A) (ys later : List A)
    → Perm later (x ∷ ys)
    → Perm (place o x y ys later) (x ∷ y ∷ ys)
place-perm Ordering.gt x y ys later h = Perm.trans (Perm.cons y h) (Perm.swap x y ys)
place-perm _ x y ys later h = Perm.refl _

place-All {ℓ κ} :
    {A : Type ℓ} (P : A → Type κ) (o : Ordering) (x y : A) (ys later : List A)
    → P x
    → All P (y ∷ ys)
    → All P later
    → All P (place o x y ys later)
place-All P Ordering.gt x y ys later p h k = (h.0, k)
place-All P _ x y ys later p h k = (p, h)

module _ {ℓ} {A : Type ℓ} (cmp : Comparison A) where
  insert-perm : (x : A) (xs : List A) → Perm (insert cmp x xs) (x ∷ xs)
  unfolding insert
  insert-perm x [] = Perm.refl _
  insert-perm x (y ∷ ys) = place-perm (cmp x y) x y ys (insert cmp x ys) (insert-perm x ys)

  pub sort_by-perm : (xs : List A) → Perm (sort_by cmp xs) xs
  unfolding sort_by
  sort_by-perm [] = Perm.refl _
  sort_by-perm (x ∷ xs) =
      Perm.trans (insert-perm x (sort_by cmp xs)) (Perm.cons x (sort_by-perm xs))

  insert-All {κ} : (P : A → Type κ) (x : A) (xs : List A) → P x → All P xs → All P (insert cmp x xs)
  unfolding insert
  insert-All P x [] p h = (p, tt)
  insert-All P x (y ∷ ys) p h =
      place-All P (cmp x y) x y ys (insert cmp x ys) p h (insert-All P x ys p h.1)

  -- What holds of every item still does.
  pub sort_by-All {κ} : (P : A → Type κ) (xs : List A) → All P xs → All P (sort_by cmp xs)
  unfolding sort_by
  sort_by-All P [] h = tt
  sort_by-All P (x ∷ xs) (p, h) = insert-All P x (sort_by cmp xs) p (sort_by-All P xs h)

module _ {ℓ κ} {A : Type ℓ} (cmp : Comparison A) (R : A → A → Type κ)
    (symmetric : (a b : A) → R a b → R b a) where
  place-AllPairs :
      (o : Ordering) (x y : A) (ys later : List A)
      → All (R x) (y ∷ ys)
      → AllPairs R (y ∷ ys)
      → All (R y) later
      → AllPairs R later
      → AllPairs R (place o x y ys later)
  place-AllPairs Ordering.gt x y ys later h k m n = (m, n)
  place-AllPairs _ x y ys later h k m n = (h, k)

  insert-AllPairs :
      (x : A) (xs : List A) → All (R x) xs → AllPairs R xs → AllPairs R (insert cmp x xs)
  unfolding insert
  insert-AllPairs x [] h k = (tt, tt)
  insert-AllPairs x (y ∷ ys) h k =
      place-AllPairs (cmp x y) x y ys (insert cmp x ys) h k
        (insert-All cmp (R y) x ys (symmetric x y h.0) k.0) (insert-AllPairs x ys h.1 k.1)

  -- A symmetric relation between all pairs survives the sort.
  pub sort_by-AllPairs : (xs : List A) → AllPairs R xs → AllPairs R (sort_by cmp xs)
  unfolding sort_by
  sort_by-AllPairs [] h = tt
  sort_by-AllPairs (x ∷ xs) (p, h) =
      insert-AllPairs x (sort_by cmp xs) (sort_by-All cmp (R x) xs p) (sort_by-AllPairs xs h)

place-Any {ℓ κ} :
    {A : Type ℓ} {P : A → Type κ} (o : Ordering) (x y : A) (ys later : List A)
    → Any P (x ∷ y ∷ ys)
    → (Any P (x ∷ ys) → Any P later)
    → Any P (place o x y ys later)
place-Any Ordering.gt x y ys later (Any.here p) k = Any.there (k (Any.here p))
place-Any Ordering.gt x y ys later (Any.there (Any.here p)) k = Any.here p
place-Any Ordering.gt x y ys later (Any.there (Any.there h)) k = Any.there (k (Any.there h))
place-Any _ x y ys later h k = h

module _ {ℓ κ} {A : Type ℓ} (cmp : Comparison A) {P : A → Type κ} where
  insert-Any : (x : A) (xs : List A) → Any P (x ∷ xs) → Any P (insert cmp x xs)
  unfolding insert
  insert-Any x [] h = h
  insert-Any x (y ∷ ys) h = place-Any (cmp x y) x y ys (insert cmp x ys) h (insert-Any x ys)

  -- What holds of some item still does.
  pub sort_by-Any : (xs : List A) → Any P xs → Any P (sort_by cmp xs)
  unfolding sort_by
  sort_by-Any [] h = elim h [ ]
  sort_by-Any (x ∷ xs) (Any.here p) = insert-Any x (sort_by cmp xs) (Any.here p)
  sort_by-Any (x ∷ xs) (Any.there h) = insert-Any x (sort_by cmp xs) (Any.there (sort_by-Any xs h))

place-of_Any {ℓ κ} :
    {A : Type ℓ} {P : A → Type κ} (o : Ordering) (x y : A) (ys later : List A)
    → (Any P later → Any P (x ∷ ys))
    → Any P (place o x y ys later)
    → Any P (x ∷ y ∷ ys)
place-of_Any Ordering.gt x y ys later k (Any.here p) = Any.there (Any.here p)
place-of_Any Ordering.gt x y ys later k (Any.there h) = elim (Any-cons_iff.0 (k h)) [
  | inl p ↦ Any.here p
  | inr q ↦ Any.there (Any.there q)
]
place-of_Any _ x y ys later k h = h

module _ {ℓ κ} {A : Type ℓ} (cmp : Comparison A) {P : A → Type κ} where
  Any-of_insert : (x : A) (xs : List A) → Any P (insert cmp x xs) → Any P (x ∷ xs)
  unfolding insert
  Any-of_insert x [] h = h
  Any-of_insert x (y ∷ ys) h =
      place-of_Any (cmp x y) x y ys (insert cmp x ys) (Any-of_insert x ys) h

  Any-of_sort_by : (xs : List A) → Any P (sort_by cmp xs) → Any P xs
  unfolding sort_by
  Any-of_sort_by [] h = h
  Any-of_sort_by (x ∷ xs) h =
      Any-cons (λ p. p) (Any-of_sort_by xs) (Any-of_insert x (sort_by cmp xs) h)

  -- A sorted list holds the items of the list.
  pub sort_by-Any_iff : (xs : List A) → Any P (sort_by cmp xs) ↔ Any P xs
  sort_by-Any_iff xs = (Any-of_sort_by xs, sort_by-Any cmp xs)

module _ {ℓ} {A : Type ℓ} (cmp : Comparison A) where
  -- Of a sorted list, no item that is left over comes before one that is taken.
  pub take-NotAfter-drop :
      (n : ℕ) (xs : List A)
      → IsSorted cmp xs
      → All (λ b. All (NotAfter cmp b) (drop n xs)) (take n xs)
  take-NotAfter-drop zero xs h = tt
  take-NotAfter-drop (suc n) [] h = tt
  take-NotAfter-drop (suc n) (x ∷ xs) (p, h) =
      (All-drop (NotAfter cmp x) n xs p, take-NotAfter-drop n xs h)

  pub take-IsSorted : (n : ℕ) (xs : List A) → IsSorted cmp xs → IsSorted cmp (take n xs)
  take-IsSorted zero xs h = tt
  take-IsSorted (suc n) [] h = tt
  take-IsSorted (suc n) (x ∷ xs) (p, h) = (All-take (NotAfter cmp x) n xs p, take-IsSorted n xs h)

module _ {ℓ} {A : Type ℓ} (cmp : Comparison A) (l : IsLawful cmp) where
  place-IsSorted :
      (o : Ordering) (x y : A) (ys later : List A)
      → cmp x y ≡ o
      → IsSorted cmp (y ∷ ys)
      → (cmp x y ≡ Ordering.gt → All (NotAfter cmp y) later)
      → IsSorted cmp later
      → IsSorted cmp (place o x y ys later)
  place-IsSorted Ordering.gt x y ys later e h k s = (k e, s)
  place-IsSorted _ x y ys later e h k s =
      let before : cmp x y ≢ Ordering.gt = ground arith in
      (
        (
          before,
          All-map (NotAfter cmp y) (NotAfter cmp x) (λ z. not_after_trans l x y z before) ys h.0,
        ),
        h,
      )

  insert-IsSorted : (x : A) (xs : List A) → IsSorted cmp xs → IsSorted cmp (insert cmp x xs)
  unfolding insert
  insert-IsSorted x [] h = (tt, tt)
  insert-IsSorted x (y ∷ ys) h =
      place-IsSorted (cmp x y) x y ys (insert cmp x ys) refl h
        (λ after. insert-All cmp (NotAfter cmp y) x ys (not_after_of_after l x y after) h.0)
        (insert-IsSorted x ys h.1)

  pub sort_by-IsSorted : (xs : List A) → IsSorted cmp (sort_by cmp xs)
  unfolding sort_by
  sort_by-IsSorted [] = tt
  sort_by-IsSorted (x ∷ xs) = insert-IsSorted x (sort_by cmp xs) (sort_by-IsSorted xs)
