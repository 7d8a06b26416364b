-- ===== src/Lockfile/Diff/Renewal.antt =====
-- lockfile/src/diff.rs: which packages bring other code, and which changes say so.
use install_scope.Common.{
  ◌≡◌, refl, sym, ◌↔◌, ◌⊎◌, inl, inr, Bool, true, false, not, Option, none, some, List, [], ◌∷◌,
  arith, Option-cases, Any, Any-cons_iff, Any-append_iff, if◌then◌else◌,
}
use mathlib.Core.Path.{subst}
use install_scope.Common.Text.{Text, text_eq}
use install_scope.Common.Ordered.{lookup}
use install_scope.Lockfile.Model.{Package, Identity, integrity, identity_cmp}
use install_scope.Lockfile.Diff.{
  Change, integrity_changed, source_changed, groups_changed, integrity_changes, same_source_kind,
  groups_eq, compare_same_identity, compared, same_identities, only_in,
}
use install_scope.Lockfile.Diff.Pairs.{Records}

-- Both sides have a hash, and they differ.
abbrev HashDiffers : Option Text → Option Text → Type 0
HashDiffers (some old) (some new) = text_eq old new ≡ false
HashDiffers _ _ = ⊥

-- What the same version may differ in so that other code runs: its hash, or where it comes from.
abbrev pub Differs : Package → Package → Type 0
Differs before after =
    HashDiffers (integrity before.source) (integrity after.source)
    ⊎ (same_source_kind before.source after.source ≡ false)

-- The package of the new lockfile under an identity brings code that the old one did not.
abbrev pub BringsCode : Option Package → Option Package → Type 0
BringsCode _ none = ⊥
BringsCode none (some new) = Unit
BringsCode (some old) (some new) = Differs old new

one_iff {ℓ κ} : {A : Type ℓ} {P : A → Type κ} (a : A) → Any P (a ∷ []) ↔ P a
one_iff a = (λ h. elim (Any-cons_iff.0 h) [ inl p ↦ p | inr k ↦ elim k [ ] ], λ p. Any.here p)

when-Records :
    (i : Identity) (c : Change) (same : Bool)
    → Any (Records i) (if not same then c ∷ [] else []) ↔ ((same ≡ false) × Records i c)
when-Records i c true = (λ h. elim h [ ], λ h. absurd (ground arith))
when-Records i c false = (λ h. (refl, (one_iff c).0 h), λ h. (one_iff c).1 h.1)

integrity_changes-Records :
    (i j : Identity) (old new : Option Text)
    → Any (Records i) (integrity_changes j old new) ↔ (HashDiffers old new × (j ≡ i))
integrity_changes-Records i j none new = (λ h. elim h [ ], λ h. absurd h.0)
integrity_changes-Records i j (some old) none = (λ h. elim h [ ], λ h. absurd h.0)
integrity_changes-Records i j (some old) (some new) =
    let c = integrity_changed j.name j.version (some old) (some new) in
    (
      λ h. let (differ, e) = (when-Records i c (text_eq old new)).0 h in (differ, ground arith),
      λ (differ, e). (when-Records i c (text_eq old new)).1 (differ, ground arith),
    )

compared-Records :
    (i j : Identity) (old : Option Package) (new : Package)
    → Any (Records i) (compared j old new)
      ↔ ((j ≡ i) × ((q : Package) × (old ≡ some q) × Differs q new))
unfolding compare_same_identity
compared-Records i j none new = (λ h. elim h [ ], λ (e, (q, k, d)). absurd (ground arith))
compared-Records i j (some old) new =
    let hash = integrity_changes j (integrity old.source) (integrity new.source) in
    let moved = source_changed j.name j.version old.source new.source in
    let regrouped = groups_changed j.name j.version old.groups new.groups in
    let same = same_source_kind old.source new.source in
    (
      λ h. elim ((Any-append_iff hash).0 h) [
        | inl k ↦ let (d, e) = (integrity_changes-Records i j _ _).0 k in (e, (old, refl, inl d))
        | inr k ↦ elim ((Any-append_iff (if not same then moved ∷ [] else [])).0 k) [
          | inl m ↦
              let (d, e) = (when-Records i moved same).0 m in (ground arith, (old, refl, inr d))
          | inr m ↦
              absurd
                (ground (arith, (when-Records i regrouped (groups_eq old.groups new.groups)).0 m))
        ]
      ],
      λ (e, (q, k, d)).
          let d' = subst (λ p. Differs p new) {x = q} {y = old} (ground arith) d in
          elim d' [
            | inl differ ↦
                (Any-append_iff hash).1 (inl ((integrity_changes-Records i j _ _).1 (differ, e)))
            | inr elsewhere ↦ (Any-append_iff hash).1 (
                inr (
                  (Any-append_iff (if not same then moved ∷ [] else [])).1
                    (inl ((when-Records i moved same).1 (elsewhere, ground arith)))))
          ],
    )

-- The change that the entry of an identity makes, compared with the old lockfile.
abbrev pub Renewed : List (Identity × Package) → Identity × Package → Type 0
Renewed old (i, new) = (q : Package) × (lookup identity_cmp i old ≡ some q) × Differs q new

pub same_identities-Records :
    (i : Identity) (old entries : List (Identity × Package))
    → Any (Records i) (same_identities old entries) ↔ Any (λ e. (e.0 ≡ i) × Renewed old e) entries
unfolding same_identities
same_identities-Records i old [] = (λ h. elim h [ ], λ h. elim h [ ])
same_identities-Records i old ((j, p) ∷ entries) =
    let here = compared-Records i j (lookup identity_cmp j old) p in
    let later = same_identities-Records i old entries in
    let changes = compared j (lookup identity_cmp j old) p in
    (
      λ h. elim ((Any-append_iff changes).0 h) [
        | inl k ↦ Any.here (here.0 k)
        | inr k ↦ Any.there (later.0 k)
      ],
      λ h. elim (Any-cons_iff.0 h) [
        | inl k ↦ (Any-append_iff changes).1 (inl (here.1 k))
        | inr k ↦ (Any-append_iff changes).1 (inr (later.1 k))
      ],
    )

pub only_in-Any :
    (P : Package → Type 0) (other entries : List (Identity × Package))
    → Any P (only_in other entries)
      ↔ Any (λ e. (lookup identity_cmp e.0 other ≡ none) × P e.1) entries
unfolding only_in
only_in-Any P other [] = (λ h. elim h [ ], λ h. elim h [ ])
only_in-Any P other ((j, p) ∷ entries) = elim (Option-cases (lookup identity_cmp j other)) [
  | inl lacks ↦ rw lacks (
      let later = only_in-Any P other entries in
      (
        λ h. elim (Any-cons_iff.0 h) [
          | inl k ↦ Any.here (lacks, k)
          | inr k ↦ Any.there (later.0 k)
        ],
        λ h. elim (Any-cons_iff.0 h) [ inl k ↦ Any.here k.1 | inr k ↦ Any.there (later.1 k) ],
      ))
  | inr (q, has) ↦ rw has (
      let later = only_in-Any P other entries in
      (
        λ h. Any.there (later.0 h),
        λ h. elim (Any-cons_iff.0 h) [ inl k ↦ absurd (ground arith) | inr k ↦ later.1 k ],
      ))
]

pub BringsCode-iff :
    (old new : Option Package) (p : Package)
    → new ≡ some p
    → BringsCode old new ↔ ((old ≡ none) ⊎ ((q : Package) × (old ≡ some q) × Differs q p))
BringsCode-iff old none p e = absurd (ground arith)
BringsCode-iff none (some new) p e = (λ _. inl refl, λ _. tt)
BringsCode-iff (some old) (some new) p e =
    let same : new ≡ p = ground arith in
    (
      λ d. inr (old, refl, subst (Differs old) same d),
      λ h. elim h [
        | inl k ↦ absurd (ground arith)
        | inr (q, k, d) ↦
            subst (λ x. Differs x new) {x = q} {y = old} (ground arith)
              (subst (Differs q) (sym same) d)
      ],
    )

pub none-not_BringsCode : (old new : Option Package) → new ≡ none → ¬ BringsCode old new
none-not_BringsCode old none e d = d
none-not_BringsCode old (some new) e d = absurd (ground arith)
