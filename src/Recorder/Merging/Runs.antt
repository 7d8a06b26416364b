-- ===== src/Recorder/Merging/Runs.antt =====
-- recorder/src/merge.rs: a whole recording, its operations in any order, neither loses nor invents bytes.
use install_scope.Common.{
  ℕ, zero, suc, ◌+◌, ◌-◌, ◌^◌, ◌≤◌, ◌<◌, ◌≡◌, refl, sym, ap, ◌∙◌, inl, inr, true, false, Option,
  none, some, List, [], ◌∷◌, ◌++◌, arith, ltb, All, All-map, length, filter,
}
use mathlib.Core.Path.{subst}
use install_scope.Common.Ordered
use install_scope.Recorder.Merging.{
  Merged, Buffered, Key, key_cmp, Merger, Step, max_pending, reorder_window_ns, u64_max,
}
use install_scope.Recorder.Merging.Processing.{process}
use install_scope.Recorder.Merging.Releasing.{
  release, release_found, without, release_all, release_over, forced, advance, in_order,
  drain_ready, ktime_cmp, up_to,
}
use install_scope.Recorder.Merging.Sums.{
  sum_by-append, sum_by-sort_by, total, weight_of, total-remove,
}
use install_scope.Recorder.Merging.Volume.{
  event_bytes, out_bytes, record_bytes, file_bytes, file_writes, IsConsistent,
}
use install_scope.Recorder.Merging.Accounting.{process-Moves}

-- The bytes that the merger holds, in waiting records and in open files.
abbrev pub bytes_held : Merger → ℕ
bytes_held m = total record_bytes m.pending + file_bytes m.files

-- An upper bound of the writes that an open file may yet count.
abbrev pub load : Merger → ℕ
load m = total (λ _. 1) m.pending + file_writes m.files

-- Every waiting record has a number that was given out.
pub record IsSound (m : Merger) : Type 0 where
  pub consistent : IsConsistent m.files
  pub numbered : All (λ e. e.0.1 ≤ m.sequence) m.pending

pub record Fits (m : Merger) : Type 0 where
  pub bytes : bytes_held m < 2 ^ 64
  pub writes : load m < 2 ^ 64

-- What releasing records does: bytes move from the merger to the output.
pub record Flows (m : Merger) (out : List Merged) (s : Step) : Type 0 where
  pub volume : out_bytes s.1 + bytes_held s.0 ≡ out_bytes out + bytes_held m
  pub grows : out_bytes out ≤ out_bytes s.1
  pub writes : load s.0 ≤ load m
  pub sound : IsSound s.0
  pub numbering : s.0.sequence ≡ m.sequence

-- A note on the merger that touches neither records nor files.
pub record IsNote (note : Merger → Merger) : Type 0 where
  pub waiting : (m : Merger) → (note m).pending ≡ m.pending
  pub files : (m : Merger) → (note m).files ≡ m.files
  pub numbering : (m : Merger) → (note m).sequence ≡ m.sequence

Ordered-remove-All :
    (P : Key × Buffered → Type 0) (k : Key) (p : List (Key × Buffered))
    → All P p
    → All P (Ordered.remove key_cmp k p)
Ordered-remove-All P k [] h = tt
Ordered-remove-All P k ((j, b) ∷ p) (q, h) = ground (arith, Ordered-remove-All P k p h)

module _ (note : Merger → Merger) (n : IsNote note) where
  release_found-Flows :
      (m : Merger) (key : Key) (o : Option Buffered)
      → Ordered.lookup key_cmp key m.pending ≡ o
      → IsSound m
      → Fits m
      → (out : List Merged)
      → Flows m out ((release_found note o m key).0, out ++ (release_found note o m key).1)
  release_found-Flows m key none e s f out = record {
    volume = omega (arith, sum_by-append event_bytes out []);
    grows = omega (arith, sum_by-append event_bytes out []);
    writes = omega arith;
    sound = s;
    numbering = refl;
  }
  release_found-Flows m key (some b) e s f out =
      let start = note (without key m) in
      let files = n.files (without key m) in
      let waiting = n.waiting (without key m) in
      let rest = Ordered.remove key_cmp key m.pending in
      let bytes : total record_bytes m.pending ≡ record_bytes b + total record_bytes rest =
        elim (total-remove key_cmp record_bytes key m.pending) [
          | inl h ↦ h ∙ ap (λ o. weight_of record_bytes o + total record_bytes rest) e
          | inr h ↦ absurd (ground arith)
        ] in
      let count : total (λ _. 1) m.pending ≡ 1 + total (λ _. 1) rest =
        elim (total-remove key_cmp (λ _. 1) key m.pending) [
          | inl h ↦ h ∙ ap (λ o. weight_of (λ _. 1) o + total (λ _. 1) rest) e
          | inr h ↦ absurd (ground arith)
        ] in
      let v =
        process-Moves start b (subst IsConsistent (sym files) s.consistent)
          (omega (arith, ap file_bytes files, f.bytes))
          (omega (arith, ap file_writes files, f.writes)) in
      let left = v.waiting ∙ waiting in
      record {
        volume = omega (
          arith,
          v.volume,
          ap file_bytes files,
          ap (total record_bytes) left,
          sum_by-append event_bytes out (process start b).1,
        );
        grows = omega (arith, sum_by-append event_bytes out (process start b).1);
        writes = omega (arith, v.writes, ap file_writes files, ap (total (λ _. 1)) left);
        sound = record {
          consistent = v.consistent;
          numbered = subst (All (λ e. e.0.1 ≤ (process start b).0.sequence)) (sym left) (
              All-map (λ e. e.0.1 ≤ m.sequence) _
                (λ e h. omega (arith, v.numbering, n.numbering (without key m))) rest
                (Ordered-remove-All (λ e. e.0.1 ≤ m.sequence) key m.pending s.numbered));
        };
        numbering = v.numbering ∙ n.numbering (without key m);
      }

pub Fits-Flows : {m : Merger} {out : List Merged} {s : Step} → Flows m out s → Fits m → Fits s.0
Fits-Flows v f = record {
  bytes = omega (arith, v.volume, v.grows, f.bytes);
  writes = omega (arith, v.writes, f.writes);
}

pub Flows-trans :
    {m : Merger} {out : List Merged} {s t : Step} → Flows m out s → Flows s.0 s.1 t → Flows m out t
Flows-trans v w = record {
  volume = omega (arith, v.volume, w.volume);
  grows = omega (arith, v.grows, w.grows);
  writes = omega (arith, v.writes, w.writes);
  sound = w.sound;
  numbering = w.numbering ∙ v.numbering;
}

pub Flows-here : (m : Merger) (out : List Merged) → IsSound m → Flows m out (m, out)
Flows-here m out s = record {
  volume = refl;
  grows = omega arith;
  writes = omega arith;
  sound = s;
  numbering = refl;
}

pub release_all-Flows :
    (note : Key → Merger → Merger)
    → ((key : Key) → IsNote (note key))
    → (keys : List Key) (m : Merger) (out : List Merged) → IsSound m
    → Fits m
    → Flows m out (release_all note keys m out)
unfolding release_all
release_all-Flows note n [] m out s f = Flows-here m out s
release_all-Flows note n (key ∷ keys) m out s f =
    let step =
      release_found-Flows (note key) (n key) m key (Ordered.lookup key_cmp key m.pending) refl s f
        out in
    Flows-trans step (
      release_all-Flows note n keys (release (note key) m key).0
        (out ++ (release (note key) m key).1) step.sound (Fits-Flows step f))

forced-IsNote : (key : Key) → IsNote (forced key)
forced-IsNote key = record { waiting = λ m. refl; files = λ m. refl; numbering = λ m. refl }

advance-IsNote : (key : Key) → IsNote (advance key)
advance-IsNote key = record { waiting = λ m. refl; files = λ m. refl; numbering = λ m. refl }

pub unnoted-IsNote : (key : Key) → IsNote (λ m. m)
unnoted-IsNote key = record { waiting = λ m. refl; files = λ m. refl; numbering = λ m. refl }

release_over-Flows :
    (fuel : ℕ) (m : Merger) (out : List Merged)
    → IsSound m
    → Fits m
    → Flows m out (release_over fuel m out)
unfolding release_over
release_over-Flows zero m out s f = Flows-here m out s
release_over-Flows (suc fuel) m out s f =
    elim (ltb max_pending (length m.pending))
      as (λ full. Flows m out (elim full [
        | false ↦ (m, out)
        | true ↦ elim m.pending [
          | [] ↦ (m, out)
          | (key, _) ∷ _ ↦
              let (m', more) = release (forced key) m key in release_over fuel m' (out ++ more)
        ]
      ])) [
        | false ↦ Flows-here m out s
        | true ↦
            elim m.pending
              as (λ p. Flows m out (elim p [
                | [] ↦ (m, out)
                | (key, _) ∷ _ ↦
                    let (m', more) = release (forced key) m key in
                    release_over fuel m' (out ++ more)
              ])) [
                | [] ↦ Flows-here m out s
                | (key, _) ∷ _ ↦
                    let step =
                      release_found-Flows (forced key) (forced-IsNote key) m key
                        (Ordered.lookup key_cmp key m.pending) refl s f out in
                    Flows-trans step (
                      release_over-Flows fuel (release (forced key) m key).0
                        (out ++ (release (forced key) m key).1) step.sound (Fits-Flows step f))
              ]
      ]

pub in_order-Flows :
    (m : Merger) (out : List Merged) (s : Step) → Flows m out s → Flows m out (in_order s)
in_order-Flows m out (m', out') v = record {
  volume = omega (arith, sum_by-sort_by event_bytes ktime_cmp out', v.volume);
  grows = omega (arith, sum_by-sort_by event_bytes ktime_cmp out', v.grows);
  writes = v.writes;
  sound = v.sound;
  numbering = v.numbering;
}

pub drain_ready-Flows : (m : Merger) (now : ℕ) → IsSound m → Fits m → Flows m [] (drain_ready m now)
unfolding drain_ready
drain_ready-Flows m now s f =
    let ready = filter (up_to (now - reorder_window_ns, u64_max)) (Ordered.keys m.pending) in
    let v = release_all-Flows advance advance-IsNote ready m [] s f in
    let (m', out) = release_all advance ready m [] in
    in_order-Flows m [] (release_over (length m'.pending) m' out)
      (Flows-trans v (release_over-Flows (length m'.pending) m' out v.sound (Fits-Flows v f)))
