-- ===== src/Common/Lists.antt =====
-- Lists measured by native numbers, the Boolean searches, and predicates by recursion.
use Prim.Native.Nat.{ℕ, zero, suc, ◌+◌, ◌≤◌}
use mathlib.Core.Path.{◌≡◌, refl, ap, subst}
use mathlib.Core.Logic.{◌⊎◌, inl, inr}
use mathlib.Core.Bool.{Bool, true, false, ◌&&◌, ◌||◌}
use mathlib.Core.List.{List, [], ◌∷◌, ◌++◌}
use mathlib.Core.Option.{Option, none, some}
use native.Mathlib.Omega.{arith}

module _ {ℓ} {A : Type ℓ} where
  abbrev pub get_elem? : List A → ℕ → Option A
  get_elem? [] i = none
  get_elem? (x ∷ xs) zero = some x
  get_elem? (x ∷ xs) (suc i) = get_elem? xs i

  -- `Iterator::any` and `Iterator::all`
  abbrev pub any : (A → Bool) → List A → Bool
  any p [] = false
  any p (x ∷ xs) = p x || any p xs

  abbrev pub all : (A → Bool) → List A → Bool
  all p [] = true
  all p (x ∷ xs) = p x && all p xs

  -- `Iterator::find`, `Iterator::filter` and `Vec::retain`
  abbrev pub find : (A → Bool) → List A → Option A
  find p [] = none
  find p (x ∷ xs) = elim (p x) [ true ↦ some x | false ↦ find p xs ]

  abbrev pub keep_if : Bool → A → List A → List A
  keep_if true x xs = x ∷ xs
  keep_if false x xs = xs

  abbrev pub filter : (A → Bool) → List A → List A
  filter p [] = []
  filter p (x ∷ xs) = keep_if (p x) x (filter p xs)

  abbrev pub length : List A → ℕ
  length (_ ∷ s) = suc (length s)
  length [] = 0

  abbrev pub drop : ℕ → List A → List A
  drop zero xs = xs
  drop (suc n) [] = []
  drop (suc n) (x ∷ xs) = drop n xs

  abbrev pub take : ℕ → List A → List A
  take (suc n) (a ∷ s) = a ∷ take n s
  take (suc _) [] = []
  take zero _ = []

  pub length-append : (xs ys : List A) → length (xs ++ ys) ≡ length xs + length ys
  length-append [] ys = omega arith
  length-append (x ∷ xs) ys = omega (arith, length-append xs ys)

  pub length-take-le : (n : ℕ) (xs : List A) → length (take n xs) ≤ n
  length-take-le zero xs = omega arith
  length-take-le (suc n) [] = omega arith
  length-take-le (suc n) (x ∷ xs) = omega (arith, length-take-le n xs)

module _ {ℓ} {A : Type ℓ} where
  pub take_of_length-le : (n : ℕ) (xs : List A) → length xs ≤ n → take n xs ≡ xs
  take_of_length-le n [] fits = elim n as (λ k. take {A = A} k [] ≡ []) [
    | zero ↦ refl
    | suc m ↦ refl
  ]
  take_of_length-le (suc m) (a ∷ s) fits = ap (λ t. a ∷ t) (take_of_length-le m s (omega arith))
  take_of_length-le zero (a ∷ s) fits = absurd (omega arith)

  pub take-append_of_full : (n : ℕ) (xs ys : List A) → n ≤ length xs → take n (xs ++ ys) ≡ take n xs
  take-append_of_full zero xs ys h = refl
  take-append_of_full (suc n) [] ys h = absurd (omega arith)
  take-append_of_full (suc n) (x ∷ xs) ys h = ap (◌∷◌ x) (take-append_of_full n xs ys (omega arith))

  pub take-full_append : (xs ys : List A) → take (length xs) (xs ++ ys) ≡ xs
  take-full_append [] ys = refl
  take-full_append (x ∷ xs) ys = ap (◌∷◌ x) (take-full_append xs ys)

  pub drop-full_append : (xs ys : List A) → drop (length xs) (xs ++ ys) ≡ ys
  drop-full_append [] ys = refl
  drop-full_append (x ∷ xs) ys = drop-full_append xs ys

  pub take-drop : (n : ℕ) (xs : List A) → take n xs ++ drop n xs ≡ xs
  take-drop zero xs = refl
  take-drop (suc n) [] = refl
  take-drop (suc n) (x ∷ xs) = ap (◌∷◌ x) (take-drop n xs)

  pub length-take_of_le : (n : ℕ) (xs : List A) → n ≤ length xs → length (take n xs) ≡ n
  length-take_of_le zero xs h = refl
  length-take_of_le (suc n) [] h = absurd (omega arith)
  length-take_of_le (suc n) (x ∷ xs) h = ap suc (length-take_of_le n xs (omega arith))

  -- What was cut off is cut off again.
  pub take-take_append : (n : ℕ) (xs ys : List A) → take n (take n xs ++ ys) ≡ take n (xs ++ ys)
  take-take_append zero xs ys = refl
  take-take_append (suc n) [] ys = refl
  take-take_append (suc n) (x ∷ xs) ys = ap (◌∷◌ x) (take-take_append n xs ys)

module _ {ℓ κ} {A : Type ℓ} (P : A → Type κ) where
  abbrev pub All : List A → Type κ
  All [] = Unit
  All (x ∷ xs) = P x × All xs

  -- Some item of the list has the property; the witness is kept.
  pub data Any : List A → Type (ℓ ⊔ κ) where
    here : {x : A} {xs : List A} → P x → Any (x ∷ xs)
    there : {x : A} {xs : List A} → Any xs → Any (x ∷ xs)

module _ {ℓ κ} {A : Type ℓ} (P : A → Type κ) where
  pub All-append : (xs ys : List A) → All P xs → All P ys → All P (xs ++ ys)
  All-append [] ys _ k = k
  All-append (x ∷ xs) ys (p, h) k = (p, All-append xs ys h k)

  pub All-take : (n : ℕ) (xs : List A) → All P xs → All P (take n xs)
  All-take zero xs h = tt
  All-take (suc n) [] h = tt
  All-take (suc n) (x ∷ xs) (p, h) = (p, All-take n xs h)

  pub All-drop : (n : ℕ) (xs : List A) → All P xs → All P (drop n xs)
  All-drop zero xs h = h
  All-drop (suc n) [] h = tt
  All-drop (suc n) (x ∷ xs) (p, h) = All-drop n xs h

  pub All-filter : (q : A → Bool) (xs : List A) → All P xs → All P (filter q xs)
  All-filter q [] h = tt
  All-filter q (x ∷ xs) (p, h) = ground (arith, All-filter q xs h)

module _ {ℓ κ} {A : Type ℓ} {P : A → Type κ} where
  pub Any-append_left : {xs : List A} (ys : List A) → Any P xs → Any P (xs ++ ys)
  Any-append_left ys (Any.here p) = Any.here p
  Any-append_left ys (Any.there h) = Any.there (Any-append_left ys h)

  pub Any-append_right : (xs : List A) {ys : List A} → Any P ys → Any P (xs ++ ys)
  Any-append_right [] h = h
  Any-append_right (x ∷ xs) h = Any.there (Any-append_right xs h)

pub All-map {ℓ κ μ} :
    {A : Type ℓ} (P : A → Type κ) (Q : A → Type μ) (f : (a : A) → P a → Q a) (xs : List A)
    → All P xs
    → All Q xs
All-map P Q f [] h = tt
All-map P Q f (x ∷ xs) (p, h) = (f x p, All-map P Q f xs h)

module _ {ℓ κ} {A : Type ℓ} {P : A → Type κ} where
  pub Any-take-drop : (n : ℕ) (xs : List A) → Any P xs → Any P (take n xs) ⊎ Any P (drop n xs)
  Any-take-drop zero xs h = inr h
  Any-take-drop (suc n) [] h = elim h [ ]
  Any-take-drop (suc n) (x ∷ xs) (Any.here p) = inl (Any.here p)
  Any-take-drop (suc n) (x ∷ xs) (Any.there h) = elim (Any-take-drop n xs h) [
    | inl a ↦ inl (Any.there a)
    | inr b ↦ inr b
  ]

  -- Both a property of every item and one of some item: some item has both.
  pub All-Any {μ} : {Q : A → Type μ} (xs : List A) → All P xs → Any Q xs → Any (λ x. P x × Q x) xs
  All-Any [] _ h = elim h [ ]
  All-Any (x ∷ xs) (p, _) (Any.here q) = Any.here (p, q)
  All-Any (x ∷ xs) (_, h) (Any.there k) = Any.there (All-Any xs h k)

  pub All-self : (xs : List A) → ((x : A) → Any (λ y. y ≡ x) xs → P x) → All P xs
  All-self [] h = tt
  All-self (x ∷ xs) h = (h x (Any.here refl), All-self xs (λ y k. h y (Any.there k)))

pub not-Any-nil {ℓ κ} : {A : Type ℓ} {P : A → Type κ} → ¬ Any P []
not-Any-nil h = elim h [ ]

-- What holds of every item holds of one that is listed.
pub All-at {ℓ κ} :
    {A : Type ℓ} (P : A → Type κ) (xs : List A) {a : A} → All P xs → Any (λ x. x ≡ a) xs → P a
All-at P [] _ h = elim h [ ]
All-at P (x ∷ xs) (p, _) (Any.here e) = subst P e p
All-at P (x ∷ xs) (_, h) (Any.there k) = All-at P xs h k

-- Every item of a list is an item of it.
pub All-is_item {ℓ} : {A : Type ℓ} (xs : List A) → All (λ x. Any (λ y. y ≡ x) xs) xs
All-is_item [] = tt
All-is_item (x ∷ xs) = (Any.here refl, All-map _ _ (λ y h. Any.there h) xs (All-is_item xs))

pub Any-map {ℓ κ μ} :
    {A : Type ℓ} {P : A → Type κ} {Q : A → Type μ} (f : (a : A) → P a → Q a) {xs : List A}
    → Any P xs
    → Any Q xs
Any-map f (Any.here p) = Any.here (f _ p)
Any-map f (Any.there h) = Any.there (Any-map f h)

-- Item by item: the first may change, and the later ones.
pub Any-cons {ℓ κ} :
    {A : Type ℓ} {P : A → Type κ} {x y : A} {xs ys : List A}
    → (P x → P y)
    → (Any P xs → Any P ys)
    → Any P (x ∷ xs)
    → Any P (y ∷ ys)
Any-cons f g (Any.here p) = Any.here (f p)
Any-cons f g (Any.there h) = Any.there (g h)

pub keep_if-Any {ℓ κ} :
    {A : Type ℓ} {P : A → Type κ} (b : Bool) (x : A) (xs : List A)
    → Any P (keep_if b x xs)
    → Any P (x ∷ xs)
keep_if-Any true x xs h = h
keep_if-Any false x xs h = Any.there h

pub keep_if-there {ℓ κ} :
    {A : Type ℓ} {P : A → Type κ} (b : Bool) (x : A) (xs : List A)
    → Any P xs
    → Any P (keep_if b x xs)
keep_if-there true x xs h = Any.there h
keep_if-there false x xs h = h

module _ {ℓ κ} {A : Type ℓ} (R : A → A → Type κ) where
  -- Every item is related to all later ones.
  abbrev pub AllPairs : List A → Type κ
  AllPairs [] = Unit
  AllPairs (x ∷ xs) = All (R x) xs × AllPairs xs
