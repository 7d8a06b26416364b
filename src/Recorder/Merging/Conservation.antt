-- ===== src/Recorder/Merging/Conservation.antt =====
-- recorder/src/merge.rs: over a whole recording, every written byte is reported once.
use install_scope.Common.{
  ℕ, ◌+◌, ◌^◌, ◌≤◌, ◌<◌, ◌≡◌, ◌≢◌, refl, ap, ◌∙◌, some, List, [], ◌∷◌, ◌++◌, arith, All, All-map,
  incr_u64, incr_u64_exact, length, Ordering,
}
use install_scope.Common.Sort.{sort_by, sort_by-All}
use install_scope.Common.Compare.{compare_by}
use install_scope.Common.Ordered
use install_scope.Recorder.Merging.{
  Merged, Buffered, fs_record, fd_close, net_record, proc_record, buffered_ktime, Key, key_cmp,
  Merger, new_merger, Step, enqueue, accept, push_fs, push_close, push_net, push_proc, note_lost,
}
use install_scope.Recorder.Merging.Processing.{
  process, process_fs, accumulate_write, process_open, register,
}
use install_scope.Recorder.Merging.Releasing.{
  release_all, release, release_found, without, drain_ready, close_all, finish, file_key_cmp,
  flush_all,
}
use install_scope.Recorder.Merging.Sums.{sum_by, sum_by-append, sum_by-sort_by, total, total-put}
use install_scope.Recorder.Merging.Volume.{
  event_bytes, out_bytes, record_bytes, file_bytes, IsConsistent, IsCounted, out_bytes-flush_all,
}
use install_scope.Recorder.Merging.Runs.{
  bytes_held, load, IsSound, Fits, release_all-Flows, drain_ready-Flows, unnoted-IsNote,
}

-- What the loader calls while a recording runs.
pub data Call : Type 0 where
  push : Buffered → Call
  lost : ℕ → Call
  drain : (now : ℕ) → Call

abbrev pub accepted : Merger → Buffered → Merger
accepted m (fs_record r) = push_fs m r
accepted m (fd_close h fd) = push_close m h fd
accepted m (net_record r) = push_net m r
accepted m (proc_record r) = push_proc m r

abbrev pub after_call : Merger → Call → Step
after_call m (push b) = (accepted m b, [])
after_call m (lost count) = (note_lost m count, [])
after_call m (drain now) = drain_ready m now

-- The calls in turn, then `finish`; the batches one after the other.
unfoldable pub recorded : Merger → List Call → List Merged
recorded m [] = (finish m).1
recorded m (call ∷ calls) = let (m', out) = after_call m call in out ++ recorded m' calls

abbrev call_bytes : Call → ℕ
call_bytes (push b) = record_bytes b
call_bytes (lost _) = 0
call_bytes (drain _) = 0

-- The bytes that the pushed write records say were written.
abbrev pub pushed_bytes : List Call → ℕ
pushed_bytes = sum_by call_bytes

accepted-enqueue : (m : Merger) (b : Buffered) → accepted m b ≡ enqueue (accept m) b
accepted-enqueue m (fs_record r) = unfold push_fs in refl
accepted-enqueue m (fd_close h fd) = unfold push_close in refl
accepted-enqueue m (net_record r) = unfold push_net in refl
accepted-enqueue m (proc_record r) = unfold push_proc in refl

pub key_cmp-IsExact : Ordered.IsExact key_cmp
key_cmp-IsExact = record { same = λ k. ground arith; exact = λ k l h. ground arith }

-- A number that was not given out yet is the key of no waiting record.
unused :
    (t n : ℕ) (pending : List (Key × Buffered))
    → All (λ e. e.0.1 < n) pending
    → All (λ e. key_cmp (t, n) e.0 ≢ Ordering.eq) pending
unused t n pending h = All-map (λ e. e.0.1 < n) _ (λ e less. ground arith) pending h

record Pushed (m : Merger) (b : Buffered) (m' : Merger) : Type 0 where
  bytes : bytes_held m' ≡ record_bytes b + bytes_held m
  writes : load m' ≡ 1 + load m
  sound : IsSound m'
  numbering : m'.sequence ≡ m.sequence + 1

enqueue-Pushed :
    (m : Merger) (b : Buffered) → IsSound m → m.sequence + 1 < 2 ^ 64 → Pushed m b (enqueue m b)
unfolding enqueue
enqueue-Pushed m b s small =
    let next = incr_u64_exact m.sequence small in
    let fresh =
      unused (buffered_ktime b) (incr_u64 m.sequence) m.pending
        (All-map (λ e. e.0.1 ≤ m.sequence) _ (λ e le. omega (arith, next)) m.pending s.numbered) in
    record {
      bytes = omega (
        arith,
        total-put key_cmp record_bytes (buffered_ktime b, incr_u64 m.sequence) b m.pending fresh,
      );
      writes = omega (
        arith,
        total-put key_cmp (λ _. 1) (buffered_ktime b, incr_u64 m.sequence) b m.pending fresh,
      );
      sound = record {
        consistent = s.consistent;
        numbered =
            Ordered.put-All key_cmp-IsExact (λ e. e.0.1 ≤ incr_u64 m.sequence)
              (buffered_ktime b, incr_u64 m.sequence) b m.pending (omega arith)
              (All-map (λ e. e.0.1 ≤ m.sequence) _ (λ e le. omega (arith, next)) m.pending
                s.numbered);
      };
      numbering = next;
    }

pub process-pending : (m : Merger) (b : Buffered) → (process m b).0.pending ≡ m.pending
unfolding process process_fs accumulate_write process_open register
process-pending m (fs_record r) = ground arith
process-pending m (fd_close h fd) = ground arith
process-pending m (net_record r) = refl
process-pending m (proc_record r) = refl

-- Released by their keys, one after the other, no record is left.
pub release_all_empty :
    (p : List (Key × Buffered)) (m : Merger) (out : List Merged)
    → m.pending ≡ p
    → (release_all (λ _ m'. m') (Ordered.keys p) m out).0.pending ≡ []
unfolding release_all
release_all_empty [] m out e = e
release_all_empty ((key, b) ∷ p) m out e =
    let found : Ordered.lookup key_cmp key m.pending ≡ some b =
      ap (Ordered.lookup key_cmp key) e ∙ ground (arith, key_cmp-IsExact.same key) in
    let step = release (λ m'. m') m key in
    let released : step ≡ process (without key m) b =
      ap (λ o. release_found (λ m'. m') o m key) found in
    release_all_empty p step.0 (out ++ step.1) (
      ap (λ t. t.0.pending) released
      ∙ process-pending (without key m) b
      ∙ ap (Ordered.remove key_cmp key) e
      ∙ ground (arith, key_cmp-IsExact.same key))

out_bytes-close_all :
    (m : Merger) (out : List Merged)
    → IsConsistent m.files
    → out_bytes (close_all (m, out)).1 ≡ out_bytes out + file_bytes m.files
out_bytes-close_all m out c =
    let files = sort_by (compare_by (λ e. e.0) file_key_cmp) m.files in
    sum_by-append event_bytes out (flush_all files)
    ∙ omega (
      arith,
      out_bytes-flush_all files
          (sort_by-All (compare_by (λ e. e.0) file_key_cmp) (λ e. IsCounted e.1) m.files c.counted),
      sum_by-sort_by (λ e. e.1.bytes) (compare_by (λ e. e.0) file_key_cmp) m.files,
    )

out_bytes-finish : (m : Merger) → IsSound m → Fits m → out_bytes (finish m).1 ≡ bytes_held m
unfolding finish
out_bytes-finish m s f =
    let v = release_all-Flows (λ _ m'. m') unnoted-IsNote (Ordered.keys m.pending) m [] s f in
    let (m', out) = release_all (λ _ m'. m') (Ordered.keys m.pending) m [] in
    sum_by-sort_by event_bytes _ _
    ∙ out_bytes-close_all m' out v.sound.consistent
    ∙ omega (arith, v.volume, ap (total record_bytes) (release_all_empty m.pending m [] refl))

new_merger-IsSound : IsSound new_merger
new_merger-IsSound = record { consistent = record { unique = tt; counted = tt }; numbered = tt }

-- The merger has room for what the calls still push.
record HasRoom (m : Merger) (calls : List Call) : Type 0 where
  bytes : bytes_held m + pushed_bytes calls < 2 ^ 64
  writes : load m + length calls < 2 ^ 64
  numbers : m.sequence + length calls < 2 ^ 64

Fits-HasRoom : {m : Merger} {calls : List Call} → HasRoom m calls → Fits m
Fits-HasRoom h = record { bytes = omega (arith, h.bytes); writes = omega (arith, h.writes) }

out_bytes-recorded_from :
    (calls : List Call) (m : Merger)
    → IsSound m
    → HasRoom m calls
    → out_bytes (recorded m calls) ≡ bytes_held m + pushed_bytes calls
unfolding recorded note_lost
out_bytes-recorded_from [] m s room = omega (arith, out_bytes-finish m s (Fits-HasRoom room))
out_bytes-recorded_from (push b ∷ calls) m s room =
    let accepting = accept m in
    let e = accepted-enqueue m b in
    let p =
      enqueue-Pushed accepting b (record { consistent = s.consistent; numbered = s.numbered })
        (omega (arith, room.numbers)) in
    rw e (
      omega (
        arith,
        p.bytes,
        out_bytes-recorded_from calls (enqueue accepting b) p.sound (record {
          bytes = omega (arith, p.bytes, room.bytes);
          writes = omega (arith, p.writes, room.writes);
          numbers = omega (arith, p.numbering, room.numbers);
        }),
      ))
out_bytes-recorded_from (lost count ∷ calls) m s room = omega (
  arith,
  out_bytes-recorded_from calls (note_lost m count)
      (record { consistent = s.consistent; numbered = s.numbered })
      (record {
        bytes = omega (arith, room.bytes);
        writes = omega (arith, room.writes);
        numbers = omega (arith, room.numbers);
      }),
)
out_bytes-recorded_from (drain now ∷ calls) m s room =
    let v = drain_ready-Flows m now s (Fits-HasRoom room) in
    let (m', out) = drain_ready m now in
    sum_by-append event_bytes out (recorded m' calls)
    ∙ omega (
      arith,
      v.volume,
      out_bytes-recorded_from calls m' v.sound (record {
        bytes = omega (arith, v.volume, room.bytes);
        writes = omega (arith, v.writes, room.writes);
        numbers = omega (arith, v.numbering, room.numbers);
      }),
    )

-- For any sequence of pushes, drains and loss notes, of fewer than 2^64 calls and 2^64 bytes: the events
-- that the merger emits, those of `finish` included, say in sum exactly the bytes that the pushed write
-- records say.
pub out_bytes-recorded :
    (calls : List Call)
    → pushed_bytes calls < 2 ^ 64
    → length calls < 2 ^ 64
    → out_bytes (recorded new_merger calls) ≡ pushed_bytes calls
out_bytes-recorded calls bytes few = omega (
  arith,
  out_bytes-recorded_from calls new_merger new_merger-IsSound
      (record { bytes = omega arith; writes = omega arith; numbers = omega arith }),
)
