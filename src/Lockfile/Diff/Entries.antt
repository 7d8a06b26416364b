-- ===== src/Lockfile/Diff/Entries.antt =====
-- lockfile/src/diff.rs: `index` holds the first external package of each identity.
use install_scope.Common.{
  ◌≡◌, sym, ap, ap₂, ◌∙◌, ◌↔◌, inl, inr, Bool, true, ◌&&◌, Option, none, some, List, [], ◌∷◌, find,
  arith, Bool-cases, All, All-map, find-eq-some, Ordering,
}
use install_scope.Common.Text.{text_eq, text_eq_iff}
use install_scope.Common.Compare.{text_cmp-eq, text_cmp_refl}
use install_scope.Common.Ordered.{
  lookup, or_insert, IsExact, IsFunctional, or_insert-IsFunctional, lookup-or_insert_self,
  lookup-or_insert_other,
}
use install_scope.Lockfile.Model.{Package, Identity, Lockfile, identity, identity_cmp, external}
use install_scope.Lockfile.Diff.{index_from, index}

identity_cmp-exact : (a b : Identity) → identity_cmp a b ≡ Ordering.eq → a ≡ b
identity_cmp-exact a b h =
    ground (arith, text_cmp-eq a.name b.name, text_cmp-eq a.version b.version)

pub identity_cmp-IsExact : IsExact identity_cmp
identity_cmp-IsExact = record {
  same = λ a. ground (arith, text_cmp_refl a.name, text_cmp_refl a.version);
  exact = identity_cmp-exact;
}

abbrev pub has_identity : Identity → Package → Bool
has_identity i p = text_eq p.name i.name && text_eq p.version i.version

pub has_identity_iff : (i : Identity) (p : Package) → (has_identity i p ≡ true) ↔ (identity p ≡ i)
has_identity_iff i p = ground (arith, text_eq_iff p.name i.name, text_eq_iff p.version i.version)

-- The package that a lockfile installs under an identity: its first external entry.
abbrev pub entry : Identity → Lockfile → Option Package
entry i l = find (has_identity i) (external l)

abbrev or_else : Option Package → Option Package → Option Package
or_else (some p) _ = some p
or_else none o = o

lookup-index_from :
    (i : Identity) (ps : List Package) (out : List (Identity × Package))
    → lookup identity_cmp i (index_from ps out)
      ≡ or_else (lookup identity_cmp i out) (find (has_identity i) ps)
unfolding index_from
lookup-index_from i [] out = ground arith
lookup-index_from i (p ∷ ps) out = elim (Bool-cases (has_identity i p)) [
  | inl mine ↦
      let e = (has_identity_iff i p).0 mine in
      lookup-index_from i ps (or_insert identity_cmp (identity p) p out)
      ∙ ground (
        arith,
        lookup-or_insert_self identity_cmp-IsExact i p out,
        ap (λ j. lookup identity_cmp i (or_insert identity_cmp j p out)) e,
      )
  | inr other ↦
      lookup-index_from i ps (or_insert identity_cmp (identity p) p out)
      ∙ ap₂ or_else
          (lookup-or_insert_other identity_cmp-IsExact i (identity p) p out (λ s.
            ground (arith, (has_identity_iff i p).1 (sym (identity_cmp-exact i (identity p) s)))))
          (ground arith)
]

pub lookup-index : (i : Identity) (l : Lockfile) → lookup identity_cmp i (index l) ≡ entry i l
unfolding index
lookup-index i l = lookup-index_from i (external l) []

index_from-IsFunctional :
    (ps : List Package) (out : List (Identity × Package))
    → IsFunctional identity_cmp-IsExact out
    → IsFunctional identity_cmp-IsExact (index_from ps out)
unfolding index_from
index_from-IsFunctional [] out h = h
index_from-IsFunctional (p ∷ ps) out h =
    index_from-IsFunctional ps (or_insert identity_cmp (identity p) p out)
      (or_insert-IsFunctional identity_cmp-IsExact (identity p) p out h)

-- Every item of the index is an entry of the lockfile, under its own identity.
pub index-entries :
    (l : Lockfile) → All (λ e. (entry e.0 l ≡ some e.1) × (identity e.1 ≡ e.0)) (index l)
index-entries l =
    All-map (λ e. lookup identity_cmp e.0 (index l) ≡ some e.1) _
      (λ e found.
        let here = sym (lookup-index e.0 l) ∙ found in
        (
          here,
          (has_identity_iff e.0 e.1).0 (find-eq-some (has_identity e.0) (external l) e.1 here),
        ))
      (index l) (unfold index in index_from-IsFunctional (external l) [] tt)
