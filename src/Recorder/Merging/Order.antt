-- ===== src/Recorder/Merging/Order.antt =====
-- recorder/src/merge.rs: the order of a batch, and how many records wait after it.
use install_scope.Common.{
  ℕ, zero, suc, ◌+◌, ◌-◌, ◌≤◌, ◌≡◌, refl, ap, ◌∙◌, true, false, some, List, [], ◌∷◌, ◌++◌, arith,
  ltb, length, filter,
}
use install_scope.Common.Compare.{compare-IsLawful, compare_by-IsLawful}
use install_scope.Common.Sort.{sort_by-IsSorted, IsSorted}
use install_scope.Common.Ordered
use install_scope.Recorder.Merging.{
  Merged, merged_ktime, Buffered, Key, key_cmp, Merger, Step, max_pending, reorder_window_ns,
  u64_max,
}
use install_scope.Recorder.Merging.Releasing.{
  release, release_found, without, release_all, release_over, forced, advance, in_order, close_all,
  drain_ready, finish, ktime_cmp, up_to,
}
use install_scope.Recorder.Merging.Conservation.{
  process-pending, release_all_empty, key_cmp-IsExact,
}

-- Releasing the first record leaves the others.
release_first :
    (m : Merger) (key : Key) (b : Buffered) (p : List (Key × Buffered))
    → m.pending ≡ (key, b) ∷ p
    → (release (forced key) m key).0.pending ≡ p
release_first m key b p e =
    let found : Ordered.lookup key_cmp key m.pending ≡ some b =
      ap (Ordered.lookup key_cmp key) e ∙ ground (arith, key_cmp-IsExact.same key) in
    ap (λ o. (release_found (forced key) o m key).0.pending) found
    ∙ process-pending (forced key (without key m)) b
    ∙ ap (Ordered.remove key_cmp key) e
    ∙ ground (arith, key_cmp-IsExact.same key)

abbrev IsWithinCap : Step → Type 0
IsWithinCap s = length s.0.pending ≤ max_pending

release_over-IsWithinCap :
    (fuel : ℕ) (m : Merger) (out : List Merged)
    → length m.pending ≤ fuel + max_pending
    → IsWithinCap (release_over fuel m out)
unfolding release_over
release_over-IsWithinCap zero m out h = omega arith
release_over-IsWithinCap (suc fuel) m out h =
    elim (ltb max_pending (length m.pending))
        as (λ full.
          (ltb max_pending (length m.pending) ≡ full)
          → IsWithinCap (elim full [
            | false ↦ (m, out)
            | true ↦ elim m.pending [
              | [] ↦ (m, out)
              | (key, _) ∷ _ ↦
                  let (m', more) = release (forced key) m key in release_over fuel m' (out ++ more)
            ]
          ])) [
            | false ↦ λ few. ground arith
            | true ↦ λ _.
                elim m.pending
                    as (λ p.
                      (m.pending ≡ p)
                      → IsWithinCap (elim p [
                        | [] ↦ (m, out)
                        | (key, _) ∷ _ ↦
                            let (m', more) = release (forced key) m key in
                            release_over fuel m' (out ++ more)
                      ])) [
                        | [] ↦ λ e. omega (arith, ap length e)
                        | (key, b) ∷ p ↦ λ e.
                            let (m', more) = release (forced key) m key in
                            release_over-IsWithinCap fuel m' (out ++ more)
                              (omega (arith, h, ap length e, ap length (release_first m key b p e)))
                      ]
                  refl
          ]
      refl

in_order-IsSorted : (s : Step) → IsSorted ktime_cmp (in_order s).1
in_order-IsSorted (m, out) =
    sort_by-IsSorted ktime_cmp (compare_by-IsLawful merged_ktime compare-IsLawful) out

in_order-pending : (s : Step) → (in_order s).0.pending ≡ s.0.pending
in_order-pending (m, out) = refl

-- For every merger: what a drain emits stands in the order of its timestamps, and no more than the cap
-- of records waits after it; what `finish` emits does too, and nothing waits and no file is open after
-- it.
pub drain_ready-IsSorted :
    (m : Merger) (now : ℕ)
    → IsSorted ktime_cmp (drain_ready m now).1
      × (length (drain_ready m now).0.pending ≤ max_pending)
      × IsSorted ktime_cmp (finish m).1
      × ((finish m).0.pending ≡ [])
      × ((finish m).0.files ≡ [])
unfolding drain_ready finish
drain_ready-IsSorted m now =
    let ready = filter (up_to (now - reorder_window_ns, u64_max)) (Ordered.keys m.pending) in
    let (m', out) = release_all advance ready m [] in
    (
      in_order-IsSorted (release_over (length m'.pending) m' out),
      omega (
        arith,
        release_over-IsWithinCap (length m'.pending) m' out (omega arith),
        ap length (in_order-pending (release_over (length m'.pending) m' out)),
      ),
      in_order-IsSorted (close_all (release_all (λ _ m''. m'') (Ordered.keys m.pending) m [])),
      release_all_empty m.pending m [] refl,
      refl,
    )
