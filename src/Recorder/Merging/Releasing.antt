-- ===== src/Recorder/Merging/Releasing.antt =====
-- recorder/src/merge.rs: `drain_ready` and `finish`.
use install_scope.Common.{
  ℕ, zero, suc, ◌-◌, max, Bool, true, false, Option, none, some, List, [], ◌∷◌, ◌++◌, ltb, length,
  filter, incr_u64, compare, Ordering,
}
use install_scope.Common.Int.{ℤ, pos, negsuc}
use install_scope.Common.Compare.{Comparison, lexicographic, compare_by}
use install_scope.Common.Sort.{sort_by}
use install_scope.Common.Ordered
use install_scope.Recorder.Merging.{
  OpenFile, Merged, merged_ktime, Buffered, Key, FileKey, key_cmp, Merger, Step, reorder_window_ns,
  max_pending, u64_max,
}
use install_scope.Recorder.Merging.Processing.{process, flush_file}

abbrev pub fd_cmp : Comparison ℤ
fd_cmp (pos a) (pos b) = compare a b
fd_cmp (negsuc a) (negsuc b) = compare b a
fd_cmp (negsuc _) (pos _) = Ordering.lt
fd_cmp (pos _) (negsuc _) = Ordering.gt

abbrev pub file_key_cmp : Comparison FileKey
file_key_cmp = lexicographic (compare_by (λ k. k.0) compare) (compare_by (λ k. k.1) fd_cmp)

-- `sort_by_key(Merged::ktime_ns)`
abbrev pub ktime_cmp : Comparison Merged
ktime_cmp = compare_by merged_ktime compare

-- `keys().range(..=key)`
abbrev pub up_to : Key → Key → Bool
up_to last key = elim (key_cmp key last) [ Ordering.gt ↦ false | _ ↦ true ]

-- The record is out of the window and counted.
abbrev pub without : Key → Merger → Merger
without key m = record m {
  pending = Ordered.remove key_cmp key m.pending;
  stats = record m.stats { released = incr_u64 m.stats.released };
}

abbrev pub advance : Key → Merger → Merger
advance key m = record m { last_released_ns = max m.last_released_ns key.0 }

abbrev pub count_forced : Merger → Merger
count_forced m = record m {
  stats = record m.stats { forced_releases = incr_u64 m.stats.forced_releases };
}

-- `if let Some(buffered) = self.pending.remove(&key)`, with what the caller notes about the key.
abbrev pub release_found : (Merger → Merger) → Option Buffered → Merger → Key → Step
release_found note none m key = (m, [])
release_found note (some b) m key = process (note (without key m)) b

abbrev pub release : (Merger → Merger) → Merger → Key → Step
release note m key = release_found note (Ordered.lookup key_cmp key m.pending) m key

-- `for key in keys`
unfoldable pub release_all : (Key → Merger → Merger) → List Key → Merger → List Merged → Step
release_all note [] m out = (m, out)
release_all note (key ∷ keys) m out =
    let (m', more) = release (note key) m key in release_all note keys m' (out ++ more)

abbrev pub forced : Key → Merger → Merger
forced key m = advance key (count_forced m)

-- The loop over the cap. Each round takes a record off, so as many rounds as there are records are
-- fuel enough.
unfoldable pub release_over : ℕ → Merger → List Merged → Step
release_over zero m out = (m, out)
release_over (suc fuel) m out = elim (ltb max_pending (length m.pending)) [
  | false ↦ (m, out)
  | true ↦ elim m.pending [
    | [] ↦ (m, out)
    | (key, _) ∷ _ ↦
        let (m', more) = release (forced key) m key in release_over fuel m' (out ++ more)
  ]
]

abbrev pub in_order : Step → Step
in_order (m, out) = (m, sort_by ktime_cmp out)

unfoldable pub drain_ready : Merger → ℕ → Step
unfolding release_all release_over
drain_ready m now =
    let last : Key = (now - reorder_window_ns, u64_max) in
    let ready = filter (up_to last) (Ordered.keys m.pending) in
    let (m', out) = release_all advance ready m [] in
    in_order (release_over (length m'.pending) m' out)

unfoldable pub flush_all : List (FileKey × OpenFile) → List Merged
unfolding flush_file
flush_all [] = []
flush_all (((tgid, _), file) ∷ files) = flush_file tgid file ++ flush_all files

abbrev pub close_all : Step → Step
close_all (m, out) = (
  record m { files = [] },
  out ++ flush_all (sort_by (compare_by (λ e. e.0) file_key_cmp) m.files),
)

unfoldable pub finish : Merger → Step
unfolding release_all flush_all
finish m = in_order (close_all (release_all (λ _ m'. m') (Ordered.keys m.pending) m []))

abbrev pub tracked_files : Merger → ℕ
tracked_files m = length m.files
