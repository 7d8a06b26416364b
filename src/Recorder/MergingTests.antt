-- ===== src/Recorder/MergingTests.antt =====
-- Tests of the merger and of the records that it reads, and an instance of each theorem about them.
use install_scope.Recorder.Merging.Processing.{process}
use install_scope.Common.{
  incr_u64, ℕ, ◌<◌, ◌≤◌, ◌≡◌, ◌↔◌, refl, Option, none, some, List, [], ◌∷◌, ◌++◌, map, arith,
  length,
}
use install_scope.Common.Int.{ℤ, pos}
use install_scope.Common.Text.{trim_end_where, Text, text}
use install_scope.Common.Text.Utf8.{from_utf8_lossy, from_utf8}
use install_scope.Common.Sort.{sort_by, IsSorted}
use install_scope.Abi.{
  path_bytes, has, Header, zeroed_header, FsRecord, ProcRecord, write_open, write_write, arg, zeros,
}
use install_scope.Abi.Arguments.{arg-eq-some_iff, HasSlot, IsArgument}
use install_scope.Recorder.Merging.{
  push_fs, push_close, Merged, fs, net, proc, fs_record, fd_close, Merger, new_merger, push_fs,
  max_pending,
}
use install_scope.Recorder.Merging.Releasing.{drain_ready, finish, ktime_cmp}
use install_scope.Recorder.Merging.Volume.{event_bytes, out_bytes}
use install_scope.Recorder.Merging.Conservation.{
  Call, push, drain, recorded, pushed_bytes, out_bytes-recorded,
}
use install_scope.Recorder.Merging.Order.{drain_ready-IsSorted}

abbrev at_time : ℕ → Header
at_time t = record zeroed_header { ktime_ns = t; tgid = 7 }

abbrev fs_at : ℕ → ℕ → ℕ → ℤ → List ℕ → FsRecord
fs_at t write_kind bytes fd path = record {
  header = at_time t;
  bytes = bytes;
  write_kind = write_kind;
  path_len = length path;
  mode = 0;
  errno = 0;
  fd = fd;
  path = path;
}

-- The write arrives before the open that it belongs to; the descriptor 1 is never opened.
abbrev calls : List Call
calls =
    push (fs_record (fs_at 20 write_write 100 (pos 3) []))
    ∷ push (fs_record (fs_at 10 write_open 0 (pos 3) (text "/a")))
    ∷ push (fs_record (fs_at 30 write_write 5 (pos 1) []))
    ∷ push (fd_close (at_time 40) (pos 3))
    ∷ drain 90000000
    ∷ push (fs_record (fs_at 60000000 write_write 1 (pos 1) []))
    ∷ []

abbrev told : Merged → ℕ × Option Text × ℕ
told (fs e) = (e.header.ktime_ns, e.path, event_bytes (fs e))
told (net _) = (0, none, 0)
told (proc _) = (0, none, 0)

reordered :
    map told (recorded new_merger calls)
    ≡ (10, some (text "/a"), 0)
      ∷ (20, some (text "/a"), 100)
      ∷ (30, none, 5)
      ∷ (60000000, none, 1)
      ∷ []
unfolding recorded drain_ready sort_by push_close push_fs incr_u64 process has trim_end_where finish
    from_utf8_lossy path_bytes
reordered = refl

stray_bytes :
    from_utf8_lossy (0x61 ∷ 0xe2 ∷ 0x82 ∷ 0x62 ∷ 0xff ∷ []) ≡ 0x61 ∷ 0xfffd ∷ 0x62 ∷ 0xfffd ∷ []
unfolding from_utf8_lossy
stray_bytes = refl

euro_sign : from_utf8 (0xe2 ∷ 0x82 ∷ 0xac ∷ []) ≡ some (0x20ac ∷ [])
unfolding from_utf8
euro_sign = refl

out_bytes-recorded_example : out_bytes (recorded new_merger calls) ≡ pushed_bytes calls
out_bytes-recorded_example = out_bytes-recorded calls (omega arith) (omega arith)

-- Two records wait, the later one pushed first.
abbrev busy : Merger
busy =
    push_fs (push_fs new_merger (fs_at 20 write_write 100 (pos 3) []))
      (fs_at 10 write_open 0 (pos 3) (text "/a"))

drain_ready-IsSorted_example :
    IsSorted ktime_cmp (drain_ready busy 60000000).1
    × (length (drain_ready busy 60000000).0.pending ≤ max_pending)
    × IsSorted ktime_cmp (finish busy).1
    × ((finish busy).0.pending ≡ [])
    × ((finish busy).0.files ≡ [])
drain_ready-IsSorted_example = drain_ready-IsSorted busy 60000000

abbrev spawned : ProcRecord
spawned = record {
  header = zeroed_header;
  filename_len = 0;
  argv_len = 512;
  argc = 2;
  filename = [];
  argv = text "sh" ++ (zeros 254 ++ (text "-c" ++ zeros 254));
}

second_argument : arg spawned 1 ≡ some (text "-c")
unfolding arg zeros
second_argument = refl

arg-eq-some_iff_example : (arg spawned 1 ≡ some (text "-c")) ↔ (
    (1 < spawned.argc)
    × (1 < 8)
    × ((s : List ℕ) × HasSlot spawned.argv 1 s × IsArgument s (text "-c")))
arg-eq-some_iff_example = arg-eq-some_iff spawned 1 (text "-c")
