-- ===== src/Recorder/Merging/Volume.antt =====
-- recorder/src/merge.rs: the bytes and writes of a step, of the table of files and of the output.
use install_scope.Common.{
  ℕ, ◌+◌, ◌≤◌, ◌<◌, ◌≡◌, refl, ◌↔◌, ◌⊎◌, inl, inr, true, List, [], ◌∷◌, arith, ◌==◌, ==_iff,
  if◌then◌else◌, Option-cases, All,
}
use install_scope.Common.Int.{pos, negsuc}
use install_scope.Recorder.Maps.{lookup, remove, insert}
use install_scope.Abi.{write_write}
use install_scope.Recorder.Merging.{
  OpenFile, Merged, fs, net, proc, Buffered, fs_record, fd_close, net_record, proc_record, FileKey,
  file_key_eq, Merger,
}
use install_scope.Recorder.Merging.Processing.{flush_file, flush_previous}
use install_scope.Recorder.Merging.Releasing.{flush_all}
use install_scope.Recorder.Merging.Sums.{
  sum_by, sum_by-append, total, weight_of, IsUnique, remove-All, remove-IsUnique, insert-IsUnique,
  total-lookup-remove, lookup-All,
}

-- The bytes that an event says were written.
abbrev pub event_bytes : Merged → ℕ
event_bytes (fs e) = weight_of (λ b. b) e.bytes
event_bytes (net _) = 0
event_bytes (proc _) = 0

abbrev pub out_bytes : List Merged → ℕ
out_bytes = sum_by event_bytes

-- The bytes that a record says were written.
abbrev pub record_bytes : Buffered → ℕ
record_bytes (fs_record r) = if r.write_kind == write_write then r.bytes else 0
record_bytes (fd_close _ _) = 0
record_bytes (net_record _) = 0
record_bytes (proc_record _) = 0

abbrev pub Files : Type 0
Files = List (FileKey × OpenFile)

abbrev pub file_bytes : Files → ℕ
file_bytes = total (λ f. f.bytes)

abbrev pub file_writes : Files → ℕ
file_writes = total (λ f. f.writes)

-- A file that nothing was written to holds no bytes.
abbrev pub IsCounted : OpenFile → Type 0
IsCounted f = (f.bytes ≡ 0) ⊎ (0 < f.writes)

pub file_key_eq_iff : (a b : FileKey) → (file_key_eq a b ≡ true) ↔ (a ≡ b)
file_key_eq_iff (p, pos a) (q, pos b) = ground (arith, ==_iff p q, ==_iff a b)
file_key_eq_iff (p, negsuc a) (q, negsuc b) = ground (arith, ==_iff p q, ==_iff a b)
file_key_eq_iff (p, pos a) (q, negsuc b) = ground (arith, ==_iff p q)
file_key_eq_iff (p, negsuc a) (q, pos b) = ground (arith, ==_iff p q)

pub record IsConsistent (files : Files) : Type 0 where
  pub unique : IsUnique file_key_eq file_key_eq_iff files
  pub counted : All (λ e. IsCounted e.1) files

-- What a step does with `bytes` bytes: none is lost, at most one write is counted, and what waits
-- is left alone.
pub record Moves (bytes : ℕ) (m m' : Merger) (out : List Merged) : Type 0 where
  pub volume : out_bytes out + file_bytes m'.files ≡ bytes + file_bytes m.files
  pub writes : file_writes m'.files ≤ file_writes m.files + 1
  pub consistent : IsConsistent m'.files
  pub waiting : m'.pending ≡ m.pending
  pub numbering : m'.sequence ≡ m.sequence

pub out_bytes-flush_file :
    (tgid : ℕ) (f : OpenFile) → IsCounted f → out_bytes (flush_file tgid f) ≡ f.bytes
unfolding flush_file
out_bytes-flush_file tgid f h = ground arith

pub flush_previous_lem :
    (tgid : ℕ) (key : FileKey) (files : Files)
    → IsConsistent files
    → out_bytes (flush_previous tgid (lookup file_key_eq key files))
      ≡ weight_of (λ f. f.bytes) (lookup file_key_eq key files)
flush_previous_lem tgid key files c = elim (Option-cases (lookup file_key_eq key files)) [
  | inl e ↦ rw (e, flush_previous, weight_of) refl
  | inr (f, e) ↦
      rw (e, flush_previous, weight_of)
        (out_bytes-flush_file tgid f
          (lookup-All file_key_eq file_key_eq_iff IsCounted key files c.counted e))
]

pub insert-IsConsistent :
    (key : FileKey) (f : OpenFile) (files : Files)
    → IsCounted f
    → IsConsistent files
    → IsConsistent (insert file_key_eq key f files)
insert-IsConsistent key f files h c = record {
  unique = insert-IsUnique file_key_eq file_key_eq_iff key f files c.unique;
  counted = (h, remove-All file_key_eq file_key_eq_iff (λ e. IsCounted e.1) key files c.counted);
}

pub remove-IsConsistent :
    (key : FileKey) (files : Files)
    → IsConsistent files
    → IsConsistent (remove file_key_eq key files)
remove-IsConsistent key files c = record {
  unique = remove-IsUnique file_key_eq file_key_eq_iff key files c.unique;
  counted = remove-All file_key_eq file_key_eq_iff (λ e. IsCounted e.1) key files c.counted;
}

-- The bytes and the writes of the entry of a key, and of the others.
pub split_bytes :
    (key : FileKey) (files : Files)
    → IsConsistent files
    → (file_bytes files
        ≡ weight_of (λ f. f.bytes) (lookup file_key_eq key files)
          + file_bytes (remove file_key_eq key files))
      × (file_writes files
          ≡ weight_of (λ f. f.writes) (lookup file_key_eq key files)
            + file_writes (remove file_key_eq key files))
split_bytes key files c = (
  total-lookup-remove file_key_eq file_key_eq_iff (λ f. f.bytes) key files c.unique,
  total-lookup-remove file_key_eq file_key_eq_iff (λ f. f.writes) key files c.unique,
)

-- The totals of the files that are still open.
pub out_bytes-flush_all :
    (files : Files)
    → All (λ e. IsCounted e.1) files
    → out_bytes (flush_all files) ≡ file_bytes files
unfolding flush_all
out_bytes-flush_all [] h = refl
out_bytes-flush_all (((tgid, fd), f) ∷ files) (p, h) = omega (
  arith,
  sum_by-append event_bytes (flush_file tgid f) (flush_all files),
  out_bytes-flush_file tgid f p,
  out_bytes-flush_all files h,
)
