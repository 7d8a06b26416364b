-- ===== src/Core/Zones/Within.antt =====
-- core/src/zones.rs: `within` and `is_runtime`, against what lying in a directory means.
use mathlib.Core.List.{append_assoc}
use install_scope.Common.{
  ◌≡◌, refl, sym, ap, ◌∙◌, ◌≢◌, ◌↔◌, ◌⊎◌, inl, inr, true, ◌||◌, List, [], ◌∷◌, ◌++◌, arith, any,
  map, Any, Option-cases, is_some_and, ||_iff,
}
use install_scope.Common.Text.{
  Text, text, text_eq, text_eq_iff, strip_prefix, strip_prefix-eq-some, strip_prefix-append,
  starts_with, starts_with_iff, trim_end_matches,
}
use install_scope.Core.Zones.{within, is_at_boundary, is_runtime, runtime_exact, runtime_prefixes}

-- The path is the directory itself, or the directory, a slash and more.
abbrev pub IsUnder : Text → Text → Type 0
IsUnder directory path = (path ≡ directory) ⊎ ((r : Text) × (path ≡ directory ++ b'/' ∷ r))

-- A declared prefix stands for the directory that it names without its trailing slashes; an empty
-- prefix and the root name none.
abbrev pub IsWithin : Text → Text → Type 0
IsWithin prefix path =
    (trim_end_matches b'/' prefix ≢ []) × IsUnder (trim_end_matches b'/' prefix) path

slash_iff :
    (d path : Text)
    → (is_some_and (strip_prefix d path) (λ rest. starts_with (text "/") rest) ≡ true)
      ↔ ((r : Text) × (path ≡ d ++ b'/' ∷ r))
slash_iff d path = (
  λ h. elim (Option-cases (strip_prefix d path)) [
    | inl e ↦ ground arith
    | inr (q, e) ↦
        let (r, cut) = (starts_with_iff (text "/") q).0 (ground arith) in
        (r, strip_prefix-eq-some d path q e ∙ ap (λ t. d ++ t) cut)
  ],
  λ (r, e). rw (e, strip_prefix-append) ((starts_with_iff (text "/") (b'/' ∷ r)).1 (r, refl)),
)

at_boundary_iff : (path d : Text) → (is_at_boundary path d ≡ true) ↔ ((d ≢ []) × IsUnder d path)
at_boundary_iff path [] = (λ h. ground arith, λ h. absurd (h.0 refl))
at_boundary_iff path (c ∷ d) =
    let tests =
      ||_iff (text_eq path (c ∷ d))
        (is_some_and (strip_prefix (c ∷ d) path) (λ rest. starts_with (text "/") rest)) in
    (
      λ h. (
        λ e. ground arith,
        elim (tests.0 h) [
          | inl same ↦ inl ((text_eq_iff _ _).0 same)
          | inr below ↦ inr ((slash_iff (c ∷ d) path).0 below)
        ],
      ),
      λ (_, u). tests.1 (elim u [
        | inl same ↦ inl ((text_eq_iff _ _).1 same)
        | inr below ↦ inr ((slash_iff (c ∷ d) path).1 below)
      ]),
    )

-- The test of a declared prefix holds exactly for the directory that the prefix names without its
-- trailing slashes and the paths under it; an empty prefix and the root hold nothing.
pub within_iff : (path prefix : Text) → (within path prefix ≡ true) ↔ IsWithin prefix path
unfolding within
within_iff path [] = (λ h. ground arith, λ h. absurd (h.0 refl))
within_iff path (c ∷ prefix) = at_boundary_iff path (trim_end_matches b'/' (c ∷ prefix))

-- A kernel interface: one of the runtime directories, or a path under one.
abbrev pub IsRuntime : Text → Type 0
IsRuntime path = Any (λ d. IsUnder d path) runtime_exact

exact_found :
    (path : Text) (ds : List Text)
    → any (λ exact. text_eq exact path) ds ≡ true
    → Any (λ d. IsUnder d path) ds
exact_found path [] h = ground arith
exact_found path (d ∷ ds) h = elim ((||_iff (text_eq d path) _).0 h) [
  | inl same ↦ Any.here (inl (sym ((text_eq_iff d path).0 same)))
  | inr later ↦ Any.there (exact_found path ds later)
]

-- The two constant lists name the same directories: each prefix is an exact path and a slash.
with_slash : runtime_prefixes ≡ map (λ d. d ++ text "/") runtime_exact
with_slash = refl

prefix_found :
    (path : Text) (ds : List Text)
    → any (λ prefix. starts_with prefix path) (map (λ d. d ++ text "/") ds) ≡ true
    → Any (λ d. IsUnder d path) ds
prefix_found path [] h = ground arith
prefix_found path (d ∷ ds) h = elim ((||_iff (starts_with (d ++ text "/") path) _).0 h) [
  | inl same ↦
      let (r, e) = (starts_with_iff (d ++ text "/") path).0 same in
      Any.here (inr (r, e ∙ append_assoc d (text "/") r))
  | inr later ↦ Any.there (prefix_found path ds later)
]

runtime_listed :
    (path : Text) (ds : List Text)
    → Any (λ d. IsUnder d path) ds
    → (any (λ exact. text_eq exact path) ds
        || any (λ prefix. starts_with prefix path) (map (λ d. d ++ text "/") ds))
      ≡ true
runtime_listed path [] h = elim h [ ]
runtime_listed path (d ∷ ds) (Any.here (inl same)) = rw ((text_eq_iff d path).1 (sym same)) refl
runtime_listed path (d ∷ ds) (Any.here (inr (r, e))) =
    let found =
      (starts_with_iff (d ++ text "/") path).1 (r, e ∙ sym (append_assoc d (text "/") r)) in
    ground arith
runtime_listed path (d ∷ ds) (Any.there h) = ground (arith, runtime_listed path ds h)

-- The test for kernel interfaces accepts the runtime directories and the paths under them.
pub is_runtime_iff : (path : Text) → (is_runtime path ≡ true) ↔ IsRuntime path
unfolding is_runtime
is_runtime_iff path = (
  λ h. elim ((||_iff _ _).0 h) [
    | inl exact ↦ exact_found path runtime_exact exact
    | inr below ↦ prefix_found path runtime_exact below
  ],
  runtime_listed path runtime_exact,
)
