-- ===== src/Recorder/Paths/Reduction.antt =====
-- recorder/src/fdtable.rs: `normalize` resolves the components of the path it is given, and no others.
use mathlib.Core.Path.{subst, subst⁻¹}
use mathlib.Core.List.{reverse, reverse-cons, append_assoc, append-nil}
use install_scope.Common.{
  ◌≡◌, refl, ap, ◌∙◌, ◌≢◌, inl, inr, Bool, true, false, List, [], ◌∷◌, ◌++◌, All,
}
use install_scope.Common.Text.{Text, text, starts_with, split, split-All-Lacks, Lacks}
use install_scope.Recorder.Paths.{normalize, step, step_up, walk}
use install_scope.Recorder.Paths.Stacks.{IsName, IsStack, text_eq-cases, walk-IsStack, step-IsStack}
use install_scope.Recorder.Paths.Normal.{IsNormal, normalize-of_IsNormal}

-- How the components of a path may be resolved: an empty one or a `.` goes, a name goes with the `..`
-- behind it, and a `..` at the root goes.
pub data Resolves (absolute : Bool) : List Text → List Text → Type 0 where
  resolved : (parts : List Text) → Resolves absolute parts parts
  empty_part :
      (before after : List Text) {parts : List Text}
      → Resolves absolute (before ++ after) parts
      → Resolves absolute (before ++ [] ∷ after) parts
  dot :
      (before after : List Text) {parts : List Text}
      → Resolves absolute (before ++ after) parts
      → Resolves absolute (before ++ text "." ∷ after) parts
  parent :
      (before after : List Text) (name : Text) {parts : List Text}
      → IsName name
      → Resolves absolute (before ++ after) parts
      → Resolves absolute (before ++ name ∷ text ".." ∷ after) parts
  root :
      (after : List Text) {parts : List Text}
      → absolute ≡ true
      → Resolves absolute after parts
      → Resolves absolute (text ".." ∷ after) parts

-- A component on top of a stack is the last one of its components.
pushed :
    (part : Text) (stack parts : List Text)
    → reverse (part ∷ stack) ++ parts ≡ reverse stack ++ part ∷ parts
pushed part stack parts =
    ap (λ l. l ++ parts) (reverse-cons part stack) ∙ append_assoc (reverse stack) (part ∷ []) parts

put_on :
    (absolute : Bool) (part : Text) (stack parts result : List Text)
    → Resolves absolute (reverse (part ∷ stack) ++ parts) result
    → Resolves absolute (reverse stack ++ part ∷ parts) result
put_on absolute part stack parts result =
    subst (λ l. Resolves absolute l result) (pushed part stack parts)

-- A component of a stack that is no `..` is a name.
last-IsName :
    (absolute : Bool) (last : Text) (stack : List Text)
    → last ≢ text ".."
    → IsStack absolute (last ∷ stack)
    → IsName last
last-IsName absolute last stack down (inl (name, _)) = name
last-IsName absolute last stack down (inr (_, up, _)) = absurd (down up)

at_parent :
    (absolute : Bool) (stack parts result : List Text)
    → IsStack absolute stack
    → Resolves absolute (reverse (step_up absolute stack) ++ parts) result
    → Resolves absolute (reverse stack ++ text ".." ∷ parts) result
at_parent true [] parts result h k = root parts refl k
at_parent false [] parts result h k = put_on false (text "..") [] parts result k
at_parent absolute (last ∷ stack) parts result h k = elim (text_eq-cases last (text "..")) [
  | inl (_, up) ↦ put_on absolute (text "..") (last ∷ stack) parts result (rw up at k)
  | inr (down, test) ↦
      subst⁻¹ (λ l. Resolves absolute l result) (pushed last stack (text ".." ∷ parts))
        (parent (reverse stack) parts last (last-IsName absolute last stack down h) (rw test at k))
]

module _ (absolute : Bool) where
  at_part :
      (part : Text) (stack parts result : List Text)
      → IsStack absolute stack
      → Resolves absolute (reverse (step absolute stack part) ++ parts) result
      → Resolves absolute (reverse stack ++ part ∷ parts) result
  at_part part stack parts result h k = elim (text_eq-cases part []) [
    | inl (e, test) ↦
        subst⁻¹ (λ p. Resolves absolute (reverse stack ++ p ∷ parts) result) e
          (empty_part (reverse stack) parts (rw test at k))
    | inr (_, test) ↦ elim (text_eq-cases part (text ".")) [
      | inl (e, is_dot) ↦
          subst⁻¹ (λ p. Resolves absolute (reverse stack ++ p ∷ parts) result) e
            (dot (reverse stack) parts (rw (test, is_dot) at k))
      | inr (_, no_dot) ↦ elim (text_eq-cases part (text "..")) [
        | inl (e, up) ↦
            subst⁻¹ (λ p. Resolves absolute (reverse stack ++ p ∷ parts) result) e
              (at_parent absolute stack parts result h (rw (test, no_dot, up) at k))
        | inr (_, down) ↦ put_on absolute part stack parts result (rw (test, no_dot, down) at k)
      ]
    ]
  ]

  walk-Resolves :
      (stack parts : List Text)
      → All (Lacks b'/') parts
      → IsStack absolute stack
      → Resolves absolute (reverse stack ++ parts) (reverse (walk absolute stack parts))
  walk-Resolves stack [] _ h =
      subst⁻¹ (λ l. Resolves absolute l (reverse stack)) (append-nil (reverse stack))
        (resolved (reverse stack))
  walk-Resolves stack (part ∷ parts) (one, rest) h =
      at_part part stack parts (reverse (walk absolute stack (part ∷ parts))) h (
        walk-Resolves (step absolute stack part) parts rest
          (step-IsStack absolute stack part one h))

-- For every path, what `normalize` returns is a normal path, absolute exactly when the path is: no
-- component is empty or `.`, and a `..` stands only at the start of a relative path. Its components
-- are those of the path, with nothing done but to drop empty ones, `.`, names with the `..` behind
-- them, and a `..` at the root; and it is its own normal form.
pub normalize_lem :
    (path : Text)
    → (n : IsNormal (starts_with (text "/") path) (normalize path)) × Resolves
        (starts_with (text "/") path)
        (split b'/' path)
        (reverse n.stack)
      × (normalize (normalize path) ≡ normalize path)
unfolding normalize
normalize_lem path =
    let absolute = starts_with (text "/") path in
    let stack = walk absolute [] (split b'/' path) in
    let n : IsNormal absolute (normalize path) = record {
      stack = stack;
      is_stack = walk-IsStack absolute [] (split b'/' path) (split-All-Lacks b'/' path) tt;
      written = refl;
    } in
    (
      n,
      walk-Resolves absolute [] (split b'/' path) (split-All-Lacks b'/' path) tt,
      normalize-of_IsNormal absolute (normalize path) n,
    )
