-- ===== src/Recorder/Paths/Stacks.antt =====
-- recorder/src/fdtable.rs: the stack of components that `normalize` builds.
use mathlib.Core.List.{reverse, reverse-cons}
use install_scope.Common.{
  ◌≡◌, refl, sym, ap, ◌∙◌, ◌≢◌, ◌⊎◌, inl, inr, Bool, true, false, List, [], ◌∷◌, ◌++◌, arith, All,
  Bool-cases,
}
use install_scope.Common.Text.{Text, text, text_eq, text_eq_iff, Lacks}
use install_scope.Recorder.Paths.{step_up, step, walk}

-- A component that stands for itself.
pub record IsName (part : Text) : Type 0 where
  pub not_empty : part ≢ []
  pub not_dot : part ≢ text "."
  pub not_parent : part ≢ text ".."
  pub in_one : Lacks b'/' part

pub text_eq-cases :
    (s t : Text) → ((s ≡ t) × (text_eq s t ≡ true)) ⊎ ((s ≢ t) × (text_eq s t ≡ false))
text_eq-cases s t = elim (Bool-cases (text_eq s t)) [
  | inl same ↦ inl ((text_eq_iff s t).0 same, same)
  | inr other ↦ inr (λ e. ground (arith, (text_eq_iff s t).1 e), other)
]

-- A stack, last component first: names, and under them the `..` of a relative path.
abbrev pub AreParents : List Text → Type 0
AreParents = All (λ part. part ≡ text "..")

abbrev pub IsStack : Bool → List Text → Type 0
IsStack absolute [] = Unit
IsStack absolute (part ∷ stack) =
    (IsName part × IsStack absolute stack)
    ⊎ ((absolute ≡ false) × (part ≡ text "..") × AreParents stack)

AreParents-IsStack : (stack : List Text) → AreParents stack → IsStack false stack
AreParents-IsStack [] h = tt
AreParents-IsStack (part ∷ stack) (up, ups) = inr (refl, up, ups)

pushed_parent :
    (absolute : Bool) (last : Text) (stack : List Text)
    → last ≡ text ".."
    → IsStack absolute (last ∷ stack)
    → IsStack absolute (text ".." ∷ last ∷ stack)
pushed_parent absolute last stack up (inl (name, _)) = absurd (name.not_parent up)
pushed_parent absolute last stack up (inr (relative, _, ups)) = inr (relative, refl, (up, ups))

popped :
    (absolute : Bool) (last : Text) (stack : List Text)
    → last ≢ text ".."
    → IsStack absolute (last ∷ stack)
    → IsStack absolute stack
popped absolute last stack down (inl (_, h)) = h
popped absolute last stack down (inr (_, up, _)) = absurd (down up)

step_up-IsStack :
    (absolute : Bool) (stack : List Text)
    → IsStack absolute stack
    → IsStack absolute (step_up absolute stack)
step_up-IsStack true [] h = tt
step_up-IsStack false [] h = inr (refl, refl, tt)
step_up-IsStack absolute (last ∷ stack) h = elim (text_eq-cases last (text "..")) [
  | inl (up, test) ↦ rw test (pushed_parent absolute last stack up h)
  | inr (down, test) ↦ rw test (popped absolute last stack down h)
]

pub step-IsStack :
    (absolute : Bool) (stack : List Text) (part : Text)
    → Lacks b'/' part
    → IsStack absolute stack
    → IsStack absolute (step absolute stack part)
step-IsStack absolute stack part one h = elim (text_eq-cases part []) [
  | inl (_, test) ↦ rw test h
  | inr (full, test) ↦ elim (text_eq-cases part (text ".")) [
    | inl (_, dot) ↦ rw (test, dot) h
    | inr (no_dot, dot) ↦ elim (text_eq-cases part (text "..")) [
      | inl (_, up) ↦ rw (test, dot, up) (step_up-IsStack absolute stack h)
      | inr (no_up, up) ↦
          rw (test, dot, up)
            (inl
              (record { not_empty = full; not_dot = no_dot; not_parent = no_up; in_one = one }, h))
    ]
  ]
]

pub walk-IsStack :
    (absolute : Bool) (stack parts : List Text)
    → All (Lacks b'/') parts
    → IsStack absolute stack
    → IsStack absolute (walk absolute stack parts)
walk-IsStack absolute stack [] _ h = h
walk-IsStack absolute stack (part ∷ parts) (one, rest) h =
    walk-IsStack absolute (step absolute stack part) parts rest
      (step-IsStack absolute stack part one h)

parent_kept :
    (stack : List Text) → AreParents stack → step false stack (text "..") ≡ text ".." ∷ stack
unfolding text_eq
parent_kept [] ups = refl
parent_kept (last ∷ stack) (up, _) =
    ap (λ l. step false (l ∷ stack) (text "..")) up ∙ ap (λ l. text ".." ∷ l ∷ stack) (sym up)

-- A component that can stand on a stack is taken as it is.
step-kept :
    (absolute : Bool) (stack : List Text) (part : Text)
    → IsStack absolute (part ∷ stack)
    → step absolute stack part ≡ part ∷ stack
step-kept absolute stack part (inl (name, _)) = ground (
  arith,
  (text_eq_iff part []).0,
  (text_eq_iff part (text ".")).0,
  (text_eq_iff part (text "..")).0,
  name.not_empty,
  name.not_dot,
  name.not_parent,
)
step-kept true stack part (inr (relative, _, _)) = absurd (ground arith)
step-kept false stack part (inr (_, up, ups)) =
    ap (step false stack) up ∙ parent_kept stack ups ∙ ap (λ p. p ∷ stack) (sym up)

pub IsStack-rest :
    (absolute : Bool) (part : Text) (stack : List Text)
    → IsStack absolute (part ∷ stack)
    → IsStack absolute stack
IsStack-rest absolute part stack (inl (_, h)) = h
IsStack-rest true part stack (inr (relative, _, _)) = absurd (ground arith)
IsStack-rest false part stack (inr (_, _, ups)) = AreParents-IsStack stack ups

walk-append :
    (absolute : Bool) (stack parts more : List Text)
    → walk absolute stack (parts ++ more) ≡ walk absolute (walk absolute stack parts) more
walk-append absolute stack [] more = refl
walk-append absolute stack (part ∷ parts) more =
    walk-append absolute (step absolute stack part) parts more

-- So a stack walked from its first component is built again.
pub walk-kept :
    (absolute : Bool) (stack : List Text)
    → IsStack absolute stack
    → walk absolute [] (reverse stack) ≡ stack
walk-kept absolute [] h = refl
walk-kept absolute (part ∷ stack) h =
    ap (walk absolute []) (reverse-cons part stack)
    ∙ walk-append absolute [] (reverse stack) (part ∷ [])
    ∙ ap (λ s. step absolute s part) (walk-kept absolute stack (IsStack-rest absolute part stack h))
    ∙ step-kept absolute stack part h
