-- ===== src/Recorder/Merging.antt =====
-- recorder/src/merge.rs: `Merger`, which reorders the records of a perf buffer and adds up writes.
-- A `HashMap` is an association list (Recorder.Maps); the pending records are in the order of their
-- keys (Common.Ordered).
pub mod Processing
pub mod Releasing
pub mod Sums
pub mod Volume
pub mod Accounting
pub mod Runs
pub mod Conservation
pub mod Order
use install_scope.Common.{
  ℕ, zero, suc, ◌+◌, ◌-◌, ◌%◌, ◌^◌, ◌<◌, min, max, Bool, true, false, not, ◌&&◌, Option, none, some,
  List, [], ◌∷◌, ◌++◌, ltb, leb, ◌==◌, if◌then◌else◌, length, filter, incr_u64, compare, Ordering,
}
use install_scope.Common.Int.{ℤ}
use install_scope.Common.Text.{Text, trim_end_matches}
use install_scope.Common.Text.Utf8.{from_utf8_lossy}
use install_scope.Common.Compare.{Comparison, lexicographic, compare_by}
use install_scope.Common.Sort.{sort_by}
use install_scope.Common.Ordered
use install_scope.Recorder.Maps.{lookup, remove, insert}
use install_scope.Recorder.FdTable.{fd_eq}
use install_scope.Abi.{
  Header, zeroed_header, has, FsRecord, path_bytes, NetRecord, ProcRecord, kind_fs_write,
  write_open, write_write, no_fd, flag_path_truncated, flag_failed,
}

abbrev pub reorder_window_ns : ℕ
reorder_window_ns = 50000000

abbrev pub max_pending : ℕ
max_pending = 16384

abbrev pub u64_max : ℕ
u64_max = 18446744073709551615

-- `u64::saturating_add`
abbrev pub saturating_add_u64 : ℕ → ℕ → ℕ
saturating_add_u64 a b = min (a + b) u64_max

pub record MergeStats : Type 0 where
  pub accepted : ℕ
  pub released : ℕ
  pub late_events : ℕ
  pub forced_releases : ℕ
  pub writes_without_path : ℕ
  pub unattributed_bytes : ℕ
  pub closes_without_open : ℕ
  pub lost_records : ℕ

abbrev pub indicates_data_loss : MergeStats → Bool
indicates_data_loss s = ltb 0 s.lost_records

pub record OpenFile : Type 0 where
  pub path : Text
  pub truncated : Bool
  pub bytes : ℕ
  pub writes : ℕ
  pub last_ktime_ns : ℕ

-- The fields of `Merged::Fs`.
pub record FsEvent : Type 0 where
  pub header : Header
  pub write_kind : ℕ
  pub path : Option Text
  pub path_truncated : Bool
  pub bytes : Option ℕ
  pub mode : ℕ
  pub errno : Option ℕ

pub data Merged : Type 0 where
  fs : FsEvent → Merged
  net : NetRecord → Merged
  proc : ProcRecord → Merged

abbrev pub merged_ktime : Merged → ℕ
merged_ktime (fs e) = e.header.ktime_ns
merged_ktime (net r) = r.header.ktime_ns
merged_ktime (proc r) = r.header.ktime_ns

pub data Buffered : Type 0 where
  fs_record : FsRecord → Buffered
  fd_close : Header → ℤ → Buffered
  net_record : NetRecord → Buffered
  proc_record : ProcRecord → Buffered

abbrev pub buffered_ktime : Buffered → ℕ
buffered_ktime (fs_record r) = r.header.ktime_ns
buffered_ktime (fd_close h fd) = h.ktime_ns
buffered_ktime (net_record r) = r.header.ktime_ns
buffered_ktime (proc_record r) = r.header.ktime_ns

-- A timestamp and the sequence number that tells equal ones apart.
abbrev pub Key : Type 0
Key = ℕ × ℕ

-- A process and its descriptor.
abbrev pub FileKey : Type 0
FileKey = ℕ × ℤ

abbrev pub key_cmp : Comparison Key
key_cmp = lexicographic (compare_by (λ k. k.0) compare) (compare_by (λ k. k.1) compare)

abbrev pub file_key_eq : FileKey → FileKey → Bool
file_key_eq (p, a) (q, b) = p == q && fd_eq a b

pub record Merger : Type 0 where
  pub pending : List (Key × Buffered)
  pub sequence : ℕ
  pub files : List (FileKey × OpenFile)
  pub last_released_ns : ℕ
  pub stats : MergeStats

abbrev pub new_merger : Merger
new_merger = record {
  pending = [];
  sequence = 0;
  files = [];
  last_released_ns = 0;
  stats = record {
    accepted = 0;
    released = 0;
    late_events = 0;
    forced_releases = 0;
    writes_without_path = 0;
    unattributed_bytes = 0;
    closes_without_open = 0;
    lost_records = 0;
  };
}

unfoldable pub note_lost : Merger → ℕ → Merger
note_lost m count = record m {
  stats = record m.stats { lost_records = saturating_add_u64 m.stats.lost_records count };
}

abbrev pub note_late : Bool → MergeStats → MergeStats
note_late true s = record s { late_events = incr_u64 s.late_events }
note_late false s = s

unfoldable pub enqueue : Merger → Buffered → Merger
enqueue m b =
    let ktime = buffered_ktime b in
    let sequence = incr_u64 m.sequence in
    record m {
      stats = note_late (ltb ktime m.last_released_ns) m.stats;
      sequence = sequence;
      pending = Ordered.put key_cmp (ktime, sequence) b m.pending;
    }

abbrev pub accept : Merger → Merger
accept m = record m { stats = record m.stats { accepted = incr_u64 m.stats.accepted } }

unfoldable pub push_fs : Merger → FsRecord → Merger
unfolding enqueue
push_fs m r = enqueue (accept m) (fs_record r)

unfoldable pub push_close : Merger → Header → ℤ → Merger
unfolding enqueue
push_close m h fd = enqueue (accept m) (fd_close h fd)

unfoldable pub push_net : Merger → NetRecord → Merger
unfolding enqueue
push_net m r = enqueue (accept m) (net_record r)

unfoldable pub push_proc : Merger → ProcRecord → Merger
unfolding enqueue
push_proc m r = enqueue (accept m) (proc_record r)

-- An operation on the table: the merger after it, and what it pushes to `out`.
abbrev pub Step : Type 0
Step = Merger × List Merged
