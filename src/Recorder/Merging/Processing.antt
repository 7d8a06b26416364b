-- ===== src/Recorder/Merging/Processing.antt =====
-- recorder/src/merge.rs: how one released record changes the table of files, and what it emits.
use install_scope.Common.{
  ℕ, Bool, false, not, ◌&&◌, Option, none, some, List, [], ◌∷◌, ◌++◌, ◌==◌, if◌then◌else◌, incr_u64,
}
use install_scope.Common.Int.{ℤ}
use install_scope.Common.Text.{Text, trim_end_matches}
use install_scope.Common.Text.Utf8.{from_utf8_lossy}
use install_scope.Recorder.Maps.{lookup, remove, insert}
use install_scope.Recorder.FdTable.{fd_eq}
use install_scope.Abi.{
  zeroed_header, has, FsRecord, path_bytes, kind_fs_write, write_open, write_write, no_fd,
  flag_path_truncated, flag_failed,
}
use install_scope.Recorder.Merging.{
  OpenFile, Merged, fs, net, proc, Buffered, fs_record, fd_close, net_record, proc_record, FileKey,
  file_key_eq, Merger, Step, saturating_add_u64,
}

abbrev pub errno_of : FsRecord → Option ℕ
errno_of r = if has r.header flag_failed then some r.errno else none

-- The total of a descriptor that is closed, if anything was written to it.
unfoldable pub flush_file : ℕ → OpenFile → List Merged
flush_file tgid file =
    if file.writes == 0
    then []
    else fs (record {
      header = record zeroed_header {
        kind = kind_fs_write;
        ktime_ns = file.last_ktime_ns;
        tgid = tgid;
        pid = tgid;
      };
      write_kind = write_write;
      path = some file.path;
      path_truncated = file.truncated;
      bytes = some file.bytes;
      mode = 0;
      errno = none;
    })
      ∷ []

abbrev pub path_of : FsRecord → Text
path_of r = trim_end_matches 0 (from_utf8_lossy (path_bytes r))

abbrev pub unattributed : Merger → FsRecord → Step
unattributed m r = (
  record m {
    stats = record m.stats {
      writes_without_path = incr_u64 m.stats.writes_without_path;
      unattributed_bytes = saturating_add_u64 m.stats.unattributed_bytes r.bytes;
    };
  },
  fs (record {
    header = r.header;
    write_kind = write_write;
    path = none;
    path_truncated = false;
    bytes = some r.bytes;
    mode = 0;
    errno = none;
  })
      ∷ [],
)

abbrev pub written : OpenFile → FsRecord → OpenFile
written file r = record file {
  bytes = saturating_add_u64 file.bytes r.bytes;
  writes = incr_u64 file.writes;
  last_ktime_ns = r.header.ktime_ns;
}

abbrev pub write_to : Option OpenFile → Merger → FsRecord → Step
write_to (some file) m r =
    (record m { files = insert file_key_eq (r.header.tgid, r.fd) (written file r) m.files }, [])
write_to none m r = unattributed m r

unfoldable pub accumulate_write : Merger → FsRecord → Step
accumulate_write m r = write_to (lookup file_key_eq (r.header.tgid, r.fd) m.files) m r

abbrev pub flush_previous : ℕ → Option OpenFile → List Merged
flush_previous tgid none = []
flush_previous tgid (some file) = flush_file tgid file

-- `remove` and `insert`: a descriptor that is opened again flushes what it stood for.
unfoldable pub register : Merger → FsRecord → Text → Bool → Step
unfolding flush_file
register m r path truncated =
    let key : FileKey = (r.header.tgid, r.fd) in
    (
      record m {
        files =
            insert file_key_eq key
              (record {
                path = path;
                truncated = truncated;
                bytes = 0;
                writes = 0;
                last_ktime_ns = r.header.ktime_ns;
              })
              (remove file_key_eq key m.files);
      },
      flush_previous r.header.tgid (lookup file_key_eq key m.files),
    )

abbrev pub then_emit : Step → Merged → Step
then_emit (m, out) e = (m, out ++ e ∷ [])

abbrev pub path_event : FsRecord → ℕ → Option Text → Merged
path_event r write_kind path = fs (record {
  header = r.header;
  write_kind = write_kind;
  path = path;
  path_truncated = has r.header flag_path_truncated;
  bytes = none;
  mode = r.mode;
  errno = errno_of r;
})

unfoldable pub process_open : Merger → FsRecord → Step
unfolding register
process_open m r =
    let path = path_of r in
    let opened = register m r path (has r.header flag_path_truncated) in
    then_emit (if not (fd_eq r.fd no_fd) && not (has r.header flag_failed) then opened else (m, []))
      (path_event r write_open (some path))

abbrev pub non_empty : Text → Option Text
non_empty [] = none
non_empty (c ∷ s) = some (c ∷ s)

unfoldable pub process_fs : Merger → FsRecord → Step
unfolding accumulate_write process_open
process_fs m r =
    if r.write_kind == write_write
    then accumulate_write m r
    else if r.write_kind == write_open
    then process_open m r
    else (m, path_event r r.write_kind (non_empty (path_of r)) ∷ [])

abbrev pub close_file : Option OpenFile → Merger → ℕ → ℤ → Step
close_file (some file) m tgid fd =
    (record m { files = remove file_key_eq (tgid, fd) m.files }, flush_file tgid file)
close_file none m tgid fd = (
  record m {
    stats = record m.stats { closes_without_open = incr_u64 m.stats.closes_without_open };
  },
  [],
)

unfoldable pub process : Merger → Buffered → Step
unfolding process_fs flush_file
process m (fs_record r) = process_fs m r
process m (fd_close h fd) = close_file (lookup file_key_eq (h.tgid, fd) m.files) m h.tgid fd
process m (net_record r) = (m, net r ∷ [])
process m (proc_record r) = (m, proc r ∷ [])
