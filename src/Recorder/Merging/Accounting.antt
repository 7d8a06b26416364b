-- ===== src/Recorder/Merging/Accounting.antt =====
-- recorder/src/merge.rs: processing a record moves its bytes to the table of files or to the output.
use install_scope.Common.{
  ℕ, ◌+◌, ◌^◌, ◌<◌, ◌≡◌, refl, ap, ◌∙◌, inl, inr, Bool, true, false, not, ◌&&◌, Option, none, some,
  [], ◌∷◌, arith, ◌==◌, if◌then◌else◌, Bool-cases, incr_u64_exact,
}
use install_scope.Common.Int.{ℤ}
use install_scope.Common.Text.{Text}
use install_scope.Recorder.Maps.{lookup, remove}
use install_scope.Recorder.FdTable.{fd_eq}
use install_scope.Abi.{
  FsRecord, write_write, write_open, no_fd, has, flag_failed, flag_path_truncated,
}
use install_scope.Recorder.Merging.{
  OpenFile, Merged, Buffered, fs_record, fd_close, net_record, proc_record, FileKey, file_key_eq,
  Merger, Step,
}
use install_scope.Recorder.Merging.Processing.{
  written, write_to, accumulate_write, register, process_open, path_event, path_of, process_fs,
  close_file, process, then_emit,
}
use install_scope.Recorder.Merging.Sums.{sum_by-append, weight_of, remove-remove, lookup-All}
use install_scope.Recorder.Merging.Volume.{
  event_bytes, record_bytes, file_bytes, file_writes, IsCounted, file_key_eq_iff, IsConsistent,
  Moves, out_bytes-flush_file, flush_previous_lem, insert-IsConsistent, remove-IsConsistent,
  split_bytes,
}

module _ (m : Merger) (r : FsRecord) (c : IsConsistent m.files) where
  write_to-Moves :
      (o : Option OpenFile)
      → lookup file_key_eq (r.header.tgid, r.fd) m.files ≡ o
      → r.bytes + file_bytes m.files < 2 ^ 64
      → file_writes m.files + 1 < 2 ^ 64
      → Moves r.bytes m (write_to o m r).0 (write_to o m r).1
  write_to-Moves none e small few = record {
    volume = omega arith;
    writes = omega arith;
    consistent = c;
    waiting = refl;
    numbering = refl;
  }
  write_to-Moves (some f) e small few =
      let key : FileKey = (r.header.tgid, r.fd) in
      let (bytes, writes) = split_bytes key m.files c in
      let bytes' =
        bytes
        ∙ ap (λ o. weight_of (λ g. g.bytes) o + file_bytes (remove file_key_eq key m.files)) e in
      let writes' =
        writes
        ∙ ap (λ o. weight_of (λ g. g.writes) o + file_writes (remove file_key_eq key m.files)) e in
      let counts = incr_u64_exact f.writes (omega arith) in
      record {
        volume = omega arith;
        writes = omega arith;
        consistent = insert-IsConsistent key (written f r) m.files (inr (omega arith)) c;
        waiting = refl;
        numbering = refl;
      }

  register-Moves :
      (path : Text) (truncated : Bool)
      → Moves 0 m (register m r path truncated).0 (register m r path truncated).1
  unfolding register
  register-Moves path truncated =
      let key : FileKey = (r.header.tgid, r.fd) in
      let (bytes, writes) = split_bytes key m.files c in
      let again = remove-remove file_key_eq file_key_eq_iff key m.files in
      record {
        volume = omega (arith, flush_previous_lem r.header.tgid key m.files c, ap file_bytes again);
        writes = omega (arith, ap file_writes again);
        consistent =
            insert-IsConsistent key _ (remove file_key_eq key m.files) (inl refl)
              (remove-IsConsistent key m.files c);
        waiting = refl;
        numbering = refl;
      }

  stays : Moves 0 m m []
  stays = record {
    volume = refl;
    writes = omega arith;
    consistent = c;
    waiting = refl;
    numbering = refl;
  }

then_emit-Moves :
    (bytes : ℕ) (m : Merger) (s : Step) (e : Merged)
    → event_bytes e ≡ 0
    → Moves bytes m s.0 s.1
    → Moves bytes m (then_emit s e).0 (then_emit s e).1
then_emit-Moves bytes m (m', out) e silent v = record {
  volume = omega (arith, sum_by-append event_bytes out (e ∷ []), v.volume);
  writes = v.writes;
  consistent = v.consistent;
  waiting = v.waiting;
  numbering = v.numbering;
}

if_step-Moves :
    (bytes : ℕ) (m : Merger) (b : Bool) (s t : Step)
    → Moves bytes m s.0 s.1
    → Moves bytes m t.0 t.1
    → Moves bytes m (if b then s else t).0 (if b then s else t).1
if_step-Moves bytes m true s t h k = h
if_step-Moves bytes m false s t h k = k

process_open-Moves :
    (m : Merger) (r : FsRecord)
    → IsConsistent m.files
    → Moves 0 m (process_open m r).0 (process_open m r).1
unfolding process_open
process_open-Moves m r c =
    let path = path_of r in
    let opened = register m r path (has r.header flag_path_truncated) in
    let registered = not (fd_eq r.fd no_fd) && not (has r.header flag_failed) in
    then_emit-Moves 0 m (if registered then opened else (m, []))
      (path_event r write_open (some path)) refl
      (if_step-Moves 0 m registered opened (m, [])
        (register-Moves m r c path (has r.header flag_path_truncated)) (stays m r c))

process_fs-Moves :
    (m : Merger) (r : FsRecord)
    → IsConsistent m.files
    → record_bytes (fs_record r) + file_bytes m.files < 2 ^ 64
    → file_writes m.files + 1 < 2 ^ 64
    → Moves (record_bytes (fs_record r)) m (process_fs m r).0 (process_fs m r).1
unfolding process_fs accumulate_write
process_fs-Moves m r c small few = elim (Bool-cases (r.write_kind == write_write)) [
  | inl is_write ↦ rw is_write (
      write_to-Moves m r c (lookup file_key_eq (r.header.tgid, r.fd) m.files) refl (ground arith)
        few)
  | inr other ↦ rw other (
      if_step-Moves 0 m (r.write_kind == write_open) _ _ (process_open-Moves m r c)
        (then_emit-Moves 0 m (m, []) (path_event r r.write_kind _) refl (stays m r c)))
]

close_file-Moves :
    (m : Merger) (tgid : ℕ) (fd : ℤ) (o : Option OpenFile)
    → lookup file_key_eq (tgid, fd) m.files ≡ o
    → IsConsistent m.files
    → Moves 0 m (close_file o m tgid fd).0 (close_file o m tgid fd).1
close_file-Moves m tgid fd none e c = record {
  volume = refl;
  writes = omega arith;
  consistent = c;
  waiting = refl;
  numbering = refl;
}
close_file-Moves m tgid fd (some f) e c =
    let key : FileKey = (tgid, fd) in
    let (bytes, writes) = split_bytes key m.files c in
    let counted = lookup-All file_key_eq file_key_eq_iff IsCounted key m.files c.counted e in
    record {
      volume = omega (
        arith,
        bytes
            ∙ ap (λ o. weight_of (λ g. g.bytes) o + file_bytes (remove file_key_eq key m.files)) e,
        out_bytes-flush_file tgid f counted,
      );
      writes = omega (arith, writes);
      consistent = remove-IsConsistent key m.files c;
      waiting = refl;
      numbering = refl;
    }

-- Processing a record accounts for its bytes.
pub process-Moves :
    (m : Merger) (b : Buffered)
    → IsConsistent m.files
    → record_bytes b + file_bytes m.files < 2 ^ 64
    → file_writes m.files + 1 < 2 ^ 64
    → Moves (record_bytes b) m (process m b).0 (process m b).1
unfolding process
process-Moves m (fs_record r) c small few = process_fs-Moves m r c small few
process-Moves m (fd_close h fd) c small few =
    close_file-Moves m h.tgid fd (lookup file_key_eq (h.tgid, fd) m.files) refl c
process-Moves m (net_record r) c small few = record {
  volume = refl;
  writes = omega arith;
  consistent = c;
  waiting = refl;
  numbering = refl;
}
process-Moves m (proc_record r) c small few = record {
  volume = refl;
  writes = omega arith;
  consistent = c;
  waiting = refl;
  numbering = refl;
}
