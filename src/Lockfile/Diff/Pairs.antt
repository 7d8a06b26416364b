-- ===== src/Lockfile/Diff/Pairs.antt =====
-- lockfile/src/diff.rs: `pair_by_name` records every added package and no other.
use install_scope.Common.{
  ◌≡◌, refl, sym, ap, ◌∙◌, ◌↔◌, ◌⊎◌, inl, inr, Bool, some, List, [], ◌∷◌, ◌++◌, map, filter, arith,
  Bool-cases, Option-cases, Any, Any-map, Any-cons_iff, Any-cons_cong, Any-append_iff,
  Any-append_left, Any-append_right, Any-of_filter, filter-Any,
}
use mathlib.Core.Path.{subst}
use mathlib.Core.List.{append_assoc}
use install_scope.Common.Text.{Text, text_eq, text_eq_iff}
use install_scope.Common.Text.Order.{text_cmp}
use install_scope.Common.Sort.{sort_by-Any_iff}
use install_scope.Common.Compare.{text_cmp-eq, text_cmp_refl}
use install_scope.Common.Ordered.{
  lookup, put, add, add_iff, keys, keys-listed, IsExact, lookup-put_self, lookup-put_other,
}
use install_scope.Lockfile.Model.{Package, Identity, identity}
use install_scope.Lockfile.Diff.{
  Change, added, removed, recordable, or_empty, by_name, pair_up, version_cmp, side, pair_names,
  add_all, pair_by_name,
}

pub text_cmp-IsExact : IsExact text_cmp
text_cmp-IsExact = record { same = text_cmp_refl; exact = text_cmp-eq }

-- A change that is recorded under the identity.
abbrev pub Records : Identity → Change → Type 0
Records i c = recordable c ≡ some i

abbrev pub Is : Identity → Package → Type 0
Is i p = identity p ≡ i

some_injective : {A : Type 0} {a b : A} → some a ≡ some b → a ≡ b
some_injective h = cc

not-removed-Records : (i : Identity) (olds : List Package) → ¬ Any (Records i) (map removed olds)
not-removed-Records i [] h = elim h [ ]
not-removed-Records i (old ∷ olds) h = elim (Any-cons_iff.0 h) [
  | inl p ↦ ground arith
  | inr k ↦ not-removed-Records i olds k
]

map-added-Records :
    (i : Identity) (news : List Package) → Any (Records i) (map added news) ↔ Any (Is i) news
map-added-Records i [] = (λ h. elim h [ ], λ h. elim h [ ])
map-added-Records i (new ∷ news) =
    Any-cons_cong (some_injective, ap some) (map-added-Records i news)

pair_up-Records :
    (name : Text) (i : Identity) (news olds : List Package)
    → Any (Records i) (pair_up name news olds) ↔ Any (Is i) news
unfolding pair_up
pair_up-Records name i (new ∷ news) (old ∷ olds) =
    Any-cons_cong (some_injective, ap some) (pair_up-Records name i news olds)
pair_up-Records name i (new ∷ news) [] = map-added-Records i (new ∷ news)
pair_up-Records name i [] [] = map-added-Records i []
pair_up-Records name i [] (old ∷ olds) =
    (λ h. absurd (not-removed-Records i (old ∷ olds) h), λ h. elim h [ ])

abbrev named : Text → Package → Bool
named name p = text_eq p.name name

append_nil : (ps : List Package) → ps ++ [] ≡ ps
append_nil [] = refl
append_nil (p ∷ ps) = ap (◌∷◌ p) (append_nil ps)

-- The group of a name holds the packages of that name, in their order.
lookup-by_name :
    (name : Text) (ps : List Package) (out : List (Text × List Package))
    → or_empty (lookup text_cmp name (by_name ps out))
      ≡ or_empty (lookup text_cmp name out) ++ filter (named name) ps
unfolding by_name
lookup-by_name name [] out = sym (append_nil _)
lookup-by_name name (p ∷ ps) out =
    let group = or_empty (lookup text_cmp p.name out) ++ p ∷ [] in
    lookup-by_name name ps (put text_cmp p.name group out) ∙ (elim (Bool-cases (named name p)) [
      | inl mine ↦
          let e = (text_eq_iff p.name name).0 mine in
          rw mine (
            ap (λ o. or_empty o ++ filter (named name) ps)
              (ap (λ n. lookup text_cmp n (put text_cmp p.name group out)) (sym e)
                ∙ lookup-put_self text_cmp-IsExact p.name group out)
            ∙ append_assoc (or_empty (lookup text_cmp p.name out)) (p ∷ []) (filter (named name) ps)
            ∙ ap (λ n. or_empty (lookup text_cmp n out) ++ (p ∷ filter (named name) ps)) e)
      | inr other ↦ rw other (
          ap (λ o. or_empty o ++ filter (named name) ps)
            (lookup-put_other text_cmp-IsExact name p.name group out
              (λ s. ground (arith, (text_eq_iff p.name name).1 (sym (text_cmp-eq name p.name s))))))
    ])

side-Any :
    {P : Package → Type 0} (name : Text) (ps : List Package)
    → Any P (side name (by_name ps [])) ↔ Any P (filter (named name) ps)
side-Any {P} name ps = rw (← lookup-by_name name ps []) (sort_by-Any_iff version_cmp _)

-- The names of the groups.
keys-by_name :
    {P : Package → Type 0} (name : Text) (ps : List Package)
    → Any P (filter (named name) ps)
    → Any (λ n. n ≡ name) (keys (by_name ps []))
keys-by_name {P} name ps h = elim (Option-cases (lookup text_cmp name (by_name ps []))) [
  | inl missing ↦
      absurd (elim (subst (Any P) (sym (lookup-by_name name ps []) ∙ ap or_empty missing) h) [ ])
  | inr (group, e) ↦ keys-listed text_cmp-IsExact name (by_name ps []) e
]

add_all-Any :
    (name : Text) (names set : List Text)
    → Any (λ n. n ≡ name) names ⊎ Any (λ n. n ≡ name) set
    → Any (λ n. n ≡ name) (add_all names set)
unfolding add_all
add_all-Any name [] set h = elim h [ inl k ↦ elim k [ ] | inr k ↦ k ]
add_all-Any name (n ∷ names) set h = add_all-Any name names (add text_cmp n set) (elim h [
  | inl k ↦ elim (Any-cons_iff.0 k) [
    | inl e ↦ inr ((add_iff text_cmp-IsExact n name set).1 (inl e))
    | inr later ↦ inl later
  ]
  | inr k ↦ inr ((add_iff text_cmp-IsExact n name set).1 (inr k))
])

module _ (i : Identity) (news olds : List Package) where
  abbrev groups : List Package → List (Text × List Package)
  groups ps = by_name ps []

  pair_names_sound :
      (names : List Text)
      → Any (Records i) (pair_names (groups news) (groups olds) names)
      → Any (Is i) news
  unfolding pair_names
  pair_names_sound [] h = elim h [ ]
  pair_names_sound (name ∷ names) h =
      elim ((Any-append_iff (pair_up name (side name (groups news)) (side name (groups olds)))).0
        h) [
          | inl k ↦ Any-of_filter (named name) news (
              (side-Any name news).0
                ((pair_up-Records name i (side name (groups news)) (side name (groups olds))).0 k))
          | inr k ↦ pair_names_sound names k
        ]

  pair_names_complete :
      (names : List Text)
      → Any (λ n. n ≡ i.name) names
      → Any (Is i) (filter (named i.name) news)
      → Any (Records i) (pair_names (groups news) (groups olds) names)
  unfolding pair_names
  pair_names_complete [] m h = elim m [ ]
  pair_names_complete (name ∷ names) m h = elim (Any-cons_iff.0 m) [
    | inl e ↦ Any-append_left _ (
        (pair_up-Records name i (side name (groups news)) (side name (groups olds))).1
          ((side-Any name news).1 (subst (λ n. Any (Is i) (filter (named n) news)) (sym e) h)))
    | inr later ↦ Any-append_right _ (pair_names_complete names later h)
  ]

  pub pair_by_name-Records : Any (Records i) (pair_by_name news olds) ↔ Any (Is i) news
  unfolding pair_by_name
  pair_by_name-Records = (
    pair_names_sound _,
    λ h.
        let mine =
          filter-Any (named i.name) news
            (Any-map (λ p e. (e, (text_eq_iff p.name i.name).1 (ap (λ j. j.name) e))) h) in
        pair_names_complete _
          (add_all-Any i.name _ [] (inl (Any-append_left _ (keys-by_name i.name news mine)))) mine,
  )
