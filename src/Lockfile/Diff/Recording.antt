-- ===== src/Lockfile/Diff/Recording.antt =====
-- lockfile/src/diff.rs: which packages a diff says to record.
use install_scope.Common.{
  ◌≡◌, refl, sym, ap, ◌∙◌, ◌↔◌, ◌⊎◌, inl, inr, true, Option, none, some, List, [], ◌∷◌, arith,
  Option-cases, Any, Any-map, All-Any, All-is_item, Any-cons_iff, Any-append_iff, Any-witness,
  find-eq-some, iff_trans, any_iff,
}
use mathlib.Core.Path.{subst}
use install_scope.Common.Sort.{sort_by-Any_iff}
use install_scope.Common.Ordered.{lookup, add_iff, lookup-listed}
use install_scope.Lockfile.Model.{Package, Identity, Lockfile, identity, identity_cmp, external}
use install_scope.Lockfile.Diff.{
  Change, added, removed, version_changed, integrity_changed, source_changed, groups_changed,
  recordable, introduces_code, should_record, note_identity, recordables, recordable_identities,
  index, same_identities, only_in, change_cmp, diff,
}
use install_scope.Lockfile.Diff.Entries.{
  identity_cmp-IsExact, has_identity, has_identity_iff, entry, lookup-index, index-entries,
}
use install_scope.Lockfile.Diff.Pairs.{Records, Is, pair_by_name-Records}
use install_scope.Lockfile.Diff.Renewal.{
  Differs, BringsCode, Renewed, same_identities-Records, only_in-Any, BringsCode-iff,
  none-not_BringsCode,
}

recordables_iff :
    (i : Identity) (cs : List Change) (seen : List Identity)
    → Any (λ j. j ≡ i) (recordables cs seen) ↔ (Any (Records i) cs ⊎ Any (λ j. j ≡ i) seen)
unfolding recordables
recordables_iff i [] seen = (inr, λ h. elim h [ inl k ↦ elim k [ ] | inr k ↦ k ])
recordables_iff i (c ∷ cs) seen =
    iff_trans (recordables_iff i cs (note_identity (recordable c) seen)) (noted (recordable c) refl)
  where
    noted :
        (o : Option Identity)
        → recordable c ≡ o
        → (Any (Records i) cs ⊎ Any (λ j. j ≡ i) (note_identity o seen))
          ↔ (Any (Records i) (c ∷ cs) ⊎ Any (λ j. j ≡ i) seen)
    noted none e = (
      λ h. elim h [ inl k ↦ inl (Any.there k) | inr k ↦ inr k ],
      λ h. elim h [
        | inl k ↦ elim (Any-cons_iff.0 k) [ inl p ↦ absurd (ground arith) | inr q ↦ inl q ]
        | inr k ↦ inr k
      ],
    )
    noted (some j) e = (
      λ h. elim h [
        | inl k ↦ inl (Any.there k)
        | inr k ↦ elim ((add_iff identity_cmp-IsExact j i seen).0 k) [
          | inl p ↦ inl (Any.here (e ∙ ap some p))
          | inr q ↦ inr q
        ]
      ],
      λ h. elim h [
        | inl k ↦ elim (Any-cons_iff.0 k) [
          | inl p ↦ inr ((add_iff identity_cmp-IsExact j i seen).1 (inl (ground arith)))
          | inr q ↦ inl q
        ]
        | inr k ↦ inr ((add_iff identity_cmp-IsExact j i seen).1 (inr k))
      ],
    )

module _ (before after : Lockfile) (i : Identity) where
  abbrev Wanted : Type 0
  Wanted = BringsCode (entry i before) (entry i after)

  -- An entry of the new index under the identity settles what the identity brings.
  settled :
      (e : Identity × Package)
      → (entry e.0 after ≡ some e.1) × (identity e.1 ≡ e.0)
      → e.0 ≡ i
      → (lookup identity_cmp e.0 (index before) ≡ none) ⊎ Renewed (index before) e
      → Wanted
  settled (j, p) (listed, _) e h =
      let found = sym (lookup-index j before) in
      subst (λ k. BringsCode (entry k before) (entry k after)) e
        ((BringsCode-iff (entry j before) (entry j after) p listed).1
          (elim h [ inl lacks ↦ inl (found ∙ lacks) | inr (q, has, d) ↦ inr (q, found ∙ has, d) ]))

  renewed-Wanted : Any (λ e. (e.0 ≡ i) × Renewed (index before) e) (index after) → Wanted
  renewed-Wanted h =
      let (e, (facts, (here, renewed))) =
        Any-witness (All-Any (index after) (index-entries after) h) in
      settled e facts here (inr renewed)

  new-Wanted : Any (Is i) (only_in (index before) (index after)) → Wanted
  new-Wanted h =
      let (e, (facts, (lacks, is))) = Any-witness (
        All-Any (index after) (index-entries after)
          ((only_in-Any (Is i) (index before) (index after)).0 h)) in
      settled e facts (sym facts.1 ∙ is) (inl lacks)

  listed-Records :
      (p : Package)
      → entry i after ≡ some p
      → (entry i before ≡ none) ⊎ ((q : Package) × (entry i before ≡ some q) × Differs q p)
      → Any (λ e. (e.0 ≡ i) × Renewed (index before) e) (index after)
        ⊎ Any (Is i) (only_in (index before) (index after))
  listed-Records p e h =
      let mine = (has_identity_iff i p).0 (find-eq-some (has_identity i) (external after) p e) in
      let found = lookup-index i before in
      let listed = lookup-listed identity_cmp-IsExact i (index after) (lookup-index i after ∙ e) in
      elim h [
        | inl lacks ↦ inr (
            (only_in-Any (Is i) (index before) (index after)).1 (
              Any-map
                (λ entry same. (
                  ap (λ x. lookup identity_cmp x.0 (index before)) same ∙ found ∙ lacks,
                  ap (λ x. identity x.1) same ∙ mine,
                ))
                listed))
        | inr (q, has, d) ↦ inl (
            Any-map
              (λ entry same.
                (ap (λ x. x.0) same, subst (Renewed (index before)) (sym same) (q, found ∙ has, d)))
              listed)
      ]

  changes-Records : Any (Records i) (diff before after).changes ↔ Wanted
  unfolding diff
  changes-Records =
      let old = index before in
      let new = index after in
      let fresh = only_in old new in
      let gone = only_in new old in
      let same = same_identities old new in
      (
        λ h. elim ((Any-append_iff same).0 ((sort_by-Any_iff change_cmp _).0 h)) [
          | inl k ↦ renewed-Wanted ((same_identities-Records i old new).0 k)
          | inr k ↦ new-Wanted ((pair_by_name-Records i fresh gone).0 k)
        ],
        λ w. (sort_by-Any_iff change_cmp _).1 (
            (Any-append_iff same).1 (elim (Option-cases (entry i after)) [
              | inl lacks ↦ absurd (none-not_BringsCode _ _ lacks w)
              | inr (p, has) ↦ elim (listed-Records p has ((BringsCode-iff _ _ p has).0 w)) [
                | inl k ↦ inl ((same_identities-Records i old new).1 k)
                | inr k ↦ inr ((pair_by_name-Records i fresh gone).1 k)
              ]
            ])),
      )

  -- For any two lockfiles and any name and version: the diff says to record it exactly when the new
  -- lockfile installs it, by its first external entry, and the old one either does not, or does
  -- with another hash, where both have one, or from somewhere else.
  pub recordable_identities-diff_iff :
      Any (λ j. j ≡ i) (recordable_identities (diff before after)) ↔ Wanted
  recordable_identities-diff_iff = iff_trans (recordables_iff i (diff before after).changes []) (
    λ h. changes-Records.0 (elim h [ inl k ↦ k | inr k ↦ elim k [ ] ]),
    λ w. inl (changes-Records.1 w),
  )

introduces_code_iff : (c : Change) → (introduces_code c ≡ true) ↔ ((i : Identity) × Records i c)
introduces_code_iff (added p) = (λ _. (identity p, refl), λ _. refl)
introduces_code_iff (version_changed _ _ p) = (λ _. (identity p, refl), λ _. refl)
introduces_code_iff (integrity_changed n v _ _) =
    (λ _. (record { name = n; version = v }, refl), λ _. refl)
introduces_code_iff (source_changed n v _ _) =
    (λ _. (record { name = n; version = v }, refl), λ _. refl)
introduces_code_iff (removed _) = (λ h. absurd (ground arith), λ (i, h). absurd (ground arith))
introduces_code_iff (groups_changed _ _ _ _) =
    (λ h. absurd (ground arith), λ (i, h). absurd (ground arith))

-- For any two lockfiles: a recording is worth a run exactly when the new lockfile installs some name
-- and version whose code the old one did not bring.
pub should_record_iff :
    (before after : Lockfile)
    → (should_record (diff before after) ≡ true)
      ↔ ((i : Identity) × BringsCode (entry i before) (entry i after))
should_record_iff before after =
    let cs = (diff before after).changes in
    iff_trans (any_iff introduces_code (λ c. (i : Identity) × Records i c) introduces_code_iff cs) (
      λ h.
          let (c, (listed, (i, e))) = Any-witness (All-Any cs (All-is_item cs) h) in
          (
            i,
            (changes-Records before after i).0 (Any-map (λ x same. ap recordable same ∙ e) listed),
          ),
      λ (i, w). Any-map (λ c e. (i, e)) ((changes-Records before after i).1 w),
    )
