-- ===== src/Common/Search.antt =====
-- What the Boolean searches find, in terms of `All` and `Any`.
use mathlib.Core.Path.{◌≡◌, refl}
use mathlib.Core.Logic.{◌↔◌, ◌⊎◌, inl, inr}
use mathlib.Core.Bool.{Bool, true, false}
use mathlib.Core.List.{List, [], ◌∷◌, ◌++◌, reverse, reverse_aux}
use mathlib.Core.Option.{some}
use native.Mathlib.Omega.{arith}
use install_scope.Common.Tests.{||_iff, not_true, Bool-cases}
use install_scope.Common.Lists.{
  any, all, find, filter, All, Any, Any-cons, keep_if-there, keep_if-Any, Any-append_left,
  Any-append_right,
}

-- Where the first item cannot be the one, a later item is.
pub Any-later {ℓ κ} :
    {A : Type ℓ} {P : A → Type κ} {x : A} {xs : List A} → Any P (x ∷ xs) → (P x → ⊥) → Any P xs
Any-later (Any.here p) h = absurd (h p)
Any-later (Any.there k) h = k

module _ {ℓ κ} {A : Type ℓ} {P : A → Type κ} (q : A → Bool) where
  -- A filtered list holds only items of the list, and all those that pass.
  pub Any-of_filter : (xs : List A) → Any P (filter q xs) → Any P xs
  Any-of_filter [] h = h
  Any-of_filter (x ∷ xs) h =
      Any-cons (λ p. p) (Any-of_filter xs) (keep_if-Any (q x) x (filter q xs) h)

  pub filter-Any : (xs : List A) → Any (λ x. P x × (q x ≡ true)) xs → Any P (filter q xs)
  filter-Any [] h = elim h [ ]
  filter-Any (x ∷ xs) (Any.here (p, e)) = rw e (Any.here p)
  filter-Any (x ∷ xs) (Any.there h) = keep_if-there (q x) x (filter q xs) (filter-Any xs h)

module _ {ℓ} {A : Type ℓ} (p : A → Bool) where
  pub find-eq-some : (xs : List A) (a : A) → find p xs ≡ some a → p a ≡ true
  find-eq-some [] a h = ground arith
  find-eq-some (x ∷ xs) a h = ground (arith, find-eq-some xs a)

  pub find-listed : (xs : List A) (a : A) → find p xs ≡ some a → Any (λ x. x ≡ a) xs
  find-listed [] a h = absurd (ground arith)
  find-listed (x ∷ xs) a h = elim (Bool-cases (p x)) [
    | inl e ↦ Any.here (ground arith)
    | inr e ↦ Any.there (find-listed xs a (ground arith))
  ]

  pub filter-holds : (xs : List A) → All (λ x. p x ≡ true) (filter p xs)
  filter-holds [] = tt
  filter-holds (x ∷ xs) = ground (arith, filter-holds xs)

Any-head {ℓ κ} :
    {A : Type ℓ} {P : A → Type κ} {Q R : Type 0} {x : A} {xs : List A}
    → Any P (x ∷ xs)
    → (P x → Q)
    → (Any P xs → R)
    → Q ⊎ R
Any-head (Any.here p) f g = inl (f p)
Any-head (Any.there h) f g = inr (g h)

-- The search finds an item exactly when there is one.
pub any_iff {ℓ κ} :
    {A : Type ℓ} (p : A → Bool) (P : A → Type κ)
    → ((a : A) → (p a ≡ true) ↔ P a)
    → (xs : List A) → (any p xs ≡ true) ↔ Any P xs
any_iff p P h [] = (λ e. ground arith, λ k. elim k [ ])
any_iff p P h (x ∷ xs) = (
  λ e. elim ((||_iff (p x) (any p xs)).0 e) [
    | inl now ↦ Any.here ((h x).0 now)
    | inr later ↦ Any.there ((any_iff p P h xs).0 later)
  ],
  λ k. (||_iff (p x) (any p xs)).1 (Any-head k (h x).1 (any_iff p P h xs).1),
)

-- Every item passes exactly when the search for all succeeds, and when the search for one fails.
pub all_iff {ℓ} :
    {A : Type ℓ} (p : A → Bool) (xs : List A) → (all p xs ≡ true) ↔ All (λ x. p x ≡ true) xs
all_iff p [] = (λ _. tt, λ _. refl)
all_iff p (x ∷ xs) =
    (λ h. (ground arith, (all_iff p xs).0 (ground arith)), λ h. rw (h.0, (all_iff p xs).1 h.1) refl)

pub any-false_iff {ℓ κ} :
    {A : Type ℓ} (p : A → Bool) (P : A → Type κ)
    → ((a : A) → (p a ≡ true) ↔ P a)
    → (xs : List A) → (any p xs ≡ false) ↔ All (λ x. ¬ P x) xs
any-false_iff p P h [] = (λ _. tt, λ _. refl)
any-false_iff p P h (x ∷ xs) = (
  λ e. (λ q. ground (arith, (h x).1 q), (any-false_iff p P h xs).0 (ground arith)),
  λ (n, k). rw (not_true (p x) (λ t. n ((h x).0 t)), (any-false_iff p P h xs).1 k) refl,
)

module _ {ℓ κ} {A : Type ℓ} {P : A → Type κ} where
  Any-reverse_aux : (xs acc : List A) → Any P xs ⊎ Any P acc → Any P (reverse_aux xs acc)
  Any-reverse_aux [] acc (inl h) = elim h [ ]
  Any-reverse_aux [] acc (inr h) = h
  Any-reverse_aux (x ∷ xs) acc (inl (Any.here p)) = Any-reverse_aux xs (x ∷ acc) (inr (Any.here p))
  Any-reverse_aux (x ∷ xs) acc (inl (Any.there h)) = Any-reverse_aux xs (x ∷ acc) (inl h)
  Any-reverse_aux (x ∷ xs) acc (inr h) = Any-reverse_aux xs (x ∷ acc) (inr (Any.there h))

  pub Any-reverse : (xs : List A) → Any P xs → Any P (reverse xs)
  Any-reverse xs h = Any-reverse_aux xs [] (inl h)

Any-uncons {ℓ κ} :
    {A : Type ℓ} {P : A → Type κ} {x : A} {xs : List A} → Any P (x ∷ xs) → P x ⊎ Any P xs
Any-uncons (Any.here p) = inl p
Any-uncons (Any.there h) = inr h

pub Any-cons_iff {ℓ κ} :
    {A : Type ℓ} {P : A → Type κ} {x : A} {xs : List A} → Any P (x ∷ xs) ↔ (P x ⊎ Any P xs)
Any-cons_iff = (Any-uncons, λ h. elim h [ inl p ↦ Any.here p | inr k ↦ Any.there k ])

Any-unappend {ℓ κ} :
    {A : Type ℓ} {P : A → Type κ} (xs : List A) {ys : List A}
    → Any P (xs ++ ys)
    → Any P xs ⊎ Any P ys
Any-unappend [] h = inr h
Any-unappend (x ∷ xs) (Any.here p) = inl (Any.here p)
Any-unappend (x ∷ xs) (Any.there h) = elim (Any-unappend xs h) [
  | inl a ↦ inl (Any.there a)
  | inr b ↦ inr b
]

pub Any-append_iff {ℓ κ} :
    {A : Type ℓ} {P : A → Type κ} (xs : List A) {ys : List A}
    → Any P (xs ++ ys) ↔ (Any P xs ⊎ Any P ys)
Any-append_iff xs {ys} =
    (Any-unappend xs, λ h. elim h [ inl a ↦ Any-append_left ys a | inr b ↦ Any-append_right xs b ])

pub Any-cons_cong {ℓ κ μ ν} :
    {A : Type ℓ} {B : Type κ} {P : A → Type μ} {Q : B → Type ν} {x : A} {y : B} {xs : List A}
    {ys : List B}
    → P x ↔ Q y
    → Any P xs ↔ Any Q ys
    → Any P (x ∷ xs) ↔ Any Q (y ∷ ys)
Any-cons_cong (to, from) (later, sooner) = (
  λ h. elim (Any-uncons h) [ inl p ↦ Any.here (to p) | inr k ↦ Any.there (later k) ],
  λ h. elim (Any-uncons h) [ inl q ↦ Any.here (from q) | inr k ↦ Any.there (sooner k) ],
)

pub Any-witness {ℓ κ} : {A : Type ℓ} {P : A → Type κ} {xs : List A} → Any P xs → (x : A) × P x
Any-witness (Any.here {x} p) = (x, p)
Any-witness (Any.there h) = Any-witness h
