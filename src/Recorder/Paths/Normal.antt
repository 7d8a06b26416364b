-- ===== src/Recorder/Paths/Normal.antt =====
-- recorder/src/fdtable.rs: `normalize`, against normal paths.
use mathlib.Core.Path.{subst⁻¹}
use mathlib.Core.List.{reverse, reverse-cons}
use install_scope.Common.{
  ℕ, ◌≡◌, refl, sym, ap, ◌∙◌, ◌≢◌, inl, inr, Bool, true, false, List, [], ◌∷◌, ◌==◌, arith, All,
  All-append,
}
use install_scope.Common.Text.{
  Text, text, text_eq, starts_with, strip_prefix, split, split-All-Lacks, join_with,
  split-join_with, Lacks,
}
use install_scope.Recorder.Paths.{normalize, walk, rendered, or_dot}
use install_scope.Recorder.Paths.Stacks.{IsStack, walk-IsStack, walk-kept, IsStack-rest}

-- A path that is written out: the components of a stack between slashes.
pub record IsNormal (absolute : Bool) (path : Text) : Type 0 where
  pub stack : List Text
  pub is_stack : IsStack absolute stack
  pub written : path ≡ rendered absolute (join_with (text "/") (reverse stack))

-- For every path: `normalize` returns a normal path, absolute exactly when the path is.
pub normalize-IsNormal : (path : Text) → IsNormal (starts_with (text "/") path) (normalize path)
unfolding normalize
normalize-IsNormal path = record {
  stack = walk (starts_with (text "/") path) [] (split b'/' path);
  is_stack =
      walk-IsStack (starts_with (text "/") path) [] (split b'/' path) (split-All-Lacks b'/' path)
        tt;
  written = refl;
}

abbrev IsComponent : Text → Type 0
IsComponent part = (part ≢ []) × Lacks b'/' part

IsStack-components :
    (absolute : Bool) (stack : List Text) → IsStack absolute stack → All IsComponent stack
IsStack-components absolute [] h = tt
IsStack-components absolute (part ∷ stack) h =
    (component h, IsStack-components absolute stack (IsStack-rest absolute part stack h))
  where
    component : IsStack absolute (part ∷ stack) → IsComponent part
    component (inl (name, _)) = (name.not_empty, name.in_one)
    component (inr (_, up, _)) = subst⁻¹ IsComponent up (λ e. ground arith, (refl, (refl, tt)))

All-reverse : (P : Text → Type 0) (xs : List Text) → All P xs → All P (reverse xs)
All-reverse P [] h = tt
All-reverse P (x ∷ xs) (p, h) =
    subst⁻¹ (All P) (reverse-cons x xs)
      (All-append P (reverse xs) (x ∷ []) (All-reverse P xs h) (p, tt))

-- The first character of joined components is no slash.
starts-join_with :
    (part : Text) (parts : List Text)
    → All IsComponent (part ∷ parts)
    → (c : ℕ) × (rest : Text) × (join_with (text "/") (part ∷ parts) ≡ c ∷ rest)
      × ((c == b'/') ≡ false)
unfolding join_with
starts-join_with [] parts ((full, _), _) = absurd (full refl)
starts-join_with (c ∷ part) [] ((_, (lacks, _)), _) = (c, part, refl, lacks)
starts-join_with (c ∷ part) (next ∷ parts) ((_, (lacks, _)), _) = (c, _, refl, lacks)

-- Components that are joined, split and walked are walked as they are.
walk-joined :
    (absolute : Bool) (parts : List Text)
    → All (Lacks b'/') parts
    → walk absolute [] (split b'/' (join_with (text "/") parts)) ≡ walk absolute [] parts
walk-joined absolute [] h = unfold join_with split text_eq in refl
walk-joined absolute (part ∷ parts) h = ap (walk absolute []) (split-join_with b'/' part parts h)

All-in_one : (parts : List Text) → All IsComponent parts → All (Lacks b'/') parts
All-in_one [] h = tt
All-in_one (part ∷ parts) ((_, one), h) = (one, All-in_one parts h)

module _ (absolute : Bool) (stack : List Text) (h : IsStack absolute stack) where
  components : All IsComponent (reverse stack)
  components = All-reverse IsComponent stack (IsStack-components absolute stack h)

  walked : walk absolute [] (split b'/' (join_with (text "/") (reverse stack))) ≡ stack
  walked =
      walk-joined absolute (reverse stack) (All-in_one (reverse stack) components)
      ∙ walk-kept absolute stack h

-- A normal path starts with a slash exactly when it is absolute, and is its own normal form.
absolute_kept :
    (stack : List Text)
    → IsStack true stack
    → normalize (rendered true (join_with (text "/") (reverse stack)))
      ≡ rendered true (join_with (text "/") (reverse stack))
unfolding normalize starts_with strip_prefix split text_eq
absolute_kept stack h = ap (λ s. b'/' ∷ join_with (text "/") (reverse s)) (walked true stack h)

starts_with-other :
    (c : ℕ) (rest : Text) → (c == b'/') ≡ false → starts_with (text "/") (c ∷ rest) ≡ false
unfolding starts_with strip_prefix
starts_with-other c rest h = ground arith

or_dot-components :
    (parts : List Text)
    → All IsComponent parts
    → starts_with (text "/") (or_dot (join_with (text "/") parts)) ≡ false
or_dot-components [] h = unfold join_with starts_with strip_prefix in refl
or_dot-components (part ∷ parts) h =
    let (c, rest, e, other) = starts-join_with part parts h in
    ap (λ s. starts_with (text "/") (or_dot s)) e ∙ starts_with-other c rest other

walk-or_dot :
    (parts : List Text)
    → All IsComponent parts
    → walk false [] (split b'/' (or_dot (join_with (text "/") parts)))
      ≡ walk false [] (split b'/' (join_with (text "/") parts))
walk-or_dot [] h = unfold join_with split text_eq in refl
walk-or_dot (part ∷ parts) h =
    let (c, rest, e, _) = starts-join_with part parts h in
    ap (λ s. walk false [] (split b'/' s)) (ap or_dot e ∙ sym e)

relative_kept :
    (stack : List Text)
    → IsStack false stack
    → normalize (rendered false (join_with (text "/") (reverse stack)))
      ≡ rendered false (join_with (text "/") (reverse stack))
unfolding normalize
relative_kept stack h =
    let parts = reverse stack in
    let all = components false stack h in
    ap
      (λ a. rendered a (
        join_with (text "/")
          (reverse (walk a [] (split b'/' (or_dot (join_with (text "/") parts)))))))
      (or_dot-components parts all)
    ∙ ap (λ s. rendered false (join_with (text "/") (reverse s)))
        (walk-or_dot parts all ∙ walked false stack h)

pub normalize-of_IsNormal :
    (absolute : Bool) (path : Text) → IsNormal absolute path → normalize path ≡ path
normalize-of_IsNormal true path n =
    ap normalize n.written ∙ absolute_kept n.stack n.is_stack ∙ sym n.written
normalize-of_IsNormal false path n =
    ap normalize n.written ∙ relative_kept n.stack n.is_stack ∙ sym n.written
