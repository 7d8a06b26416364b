-- ===== src/Recorder/Translation.antt =====
-- recorder/src/translate.rs: the event that a merged record becomes.
pub mod Placed
use install_scope.Common.{
  ℕ, suc, zero, ◌+◌, ◌-◌, ◌*◌, ◌/◌, ◌%◌, Bool, true, false, not, Option, none, some, List, [], ◌∷◌,
  ◌++◌, ◌==◌, ◌&&◌, all, ltb, map, take, drop, get_elem?, unwrap_or, if◌then◌else◌,
}
use install_scope.Common.Text.{Text, text, starts_with, trim_end_matches, join_with}
use install_scope.Common.Text.Decimal.{decimal}
use install_scope.Common.Text.Utf8.{from_utf8_lossy}
use install_scope.Core.Events.{
  Event, observed, meta_observed, Backend, aya, TracedPath, absolute, unresolved, WriteKind,
  open_file, write, create, truncate, mkdir, rename, delete, symlink, hardlink, chmod, chown,
  Outcome, success, failed, AddrFamily, inet, inet6, other_family, Payload, FsWrite, fs_write,
  net_connect, proc_spawn,
}
use install_scope.Abi.{
  Header, NetRecord, ProcRecord, has, arg, filename_bytes, argv_max_args, write_write, write_create,
  write_truncate, write_mkdir, write_rename, write_delete, write_symlink, write_hardlink,
  write_chmod, write_chown, af_inet4, af_inet6, flag_failed, flag_argv_truncated,
}
use install_scope.Recorder.Paths.{normalize}
use install_scope.Recorder.Addresses.{is_loopback, is_private}
use install_scope.Recorder.Merging.{FsEvent, Merged, fs, net, proc}

abbrev pub session_relative_ns : ℕ → ℕ → ℕ
session_relative_ns ktime_ns session_start_ktime_ns = ktime_ns - session_start_ktime_ns

-- What a table has for a number, or something else.
abbrev in_table {ℓ} : {A : Type ℓ} → List (ℕ × A) → A → ℕ → A
in_table [] other n = other
in_table ((key, a) ∷ table) other n = if n == key then a else in_table table other n

abbrev pub write_kind_of : ℕ → WriteKind
write_kind_of =
    in_table
      ((write_write, write)
        ∷ (write_create, create)
        ∷ (write_truncate, truncate)
        ∷ (write_mkdir, mkdir)
        ∷ (write_rename, rename)
        ∷ (write_delete, delete)
        ∷ (write_symlink, symlink)
        ∷ (write_hardlink, hardlink)
        ∷ (write_chmod, chmod)
        ∷ (write_chown, chown)
        ∷ [])
      open_file

abbrev pub syscall_name_for : ℕ → Text
syscall_name_for =
    in_table
      ((write_write, text "write")
        ∷ (write_mkdir, text "mkdirat")
        ∷ (write_rename, text "renameat2")
        ∷ (write_delete, text "unlinkat")
        ∷ (write_symlink, text "symlinkat")
        ∷ (write_hardlink, text "linkat")
        ∷ (write_chmod, text "fchmodat")
        ∷ (write_chown, text "fchownat")
        ∷ (write_truncate, text "truncate")
        ∷ (write_create, text "creat")
        ∷ [])
      (text "openat")

abbrev errno_names : List (ℕ × Text)
errno_names =
    (1, text "EPERM")
    ∷ (2, text "ENOENT")
    ∷ (5, text "EIO")
    ∷ (9, text "EBADF")
    ∷ (11, text "EAGAIN")
    ∷ (13, text "EACCES")
    ∷ (17, text "EEXIST")
    ∷ (20, text "ENOTDIR")
    ∷ (21, text "EISDIR")
    ∷ (22, text "EINVAL")
    ∷ (24, text "EMFILE")
    ∷ (28, text "ENOSPC")
    ∷ (30, text "EROFS")
    ∷ (36, text "ENAMETOOLONG")
    ∷ (39, text "ENOTEMPTY")
    ∷ (101, text "ENETUNREACH")
    ∷ (110, text "ETIMEDOUT")
    ∷ (111, text "ECONNREFUSED")
    ∷ (113, text "EHOSTUNREACH")
    ∷ (115, text "EINPROGRESS")
    ∷ []

abbrev errno_name : ℕ → Text
errno_name code = in_table errno_names (text "errno " ++ decimal code) code

unfoldable pub classify_path : Text → TracedPath
unfolding starts_with normalize
classify_path path =
    if starts_with (text "/") path
    then record { path = normalize path; origin = absolute }
    else record { path = path; origin = unresolved }

-- `{:x}` and `{:o}`; each round takes a digit off, so the number itself is fuel enough.
unfoldable pub digits_in : ℕ → ℕ → ℕ → Text → Text
digits_in radix zero n acc = acc
digits_in radix (suc fuel) n acc =
    let d = n % radix in
    let digits = (if ltb d 10 then b'0' + d else b'a' + d - 10) ∷ acc in
    let more = digits_in radix fuel (n / radix) digits in if ltb n radix then digits else more

abbrev radix_text : ℕ → ℕ → Text
radix_text radix n = digits_in radix (suc n) n []

abbrev byte_of : List ℕ → ℕ → ℕ
byte_of addr i = unwrap_or (get_elem? addr i) 0

abbrev segments : ℕ → ℕ → List ℕ → List ℕ
segments zero i addr = []
segments (suc n) i addr = (byte_of addr i * 256 + byte_of addr (i + 1)) ∷ segments n (i + 2) addr

abbrev dotted : List ℕ → ℕ → Text
dotted addr i =
    join_with (text ".") (map (λ k. decimal (byte_of addr (i + k))) (0 ∷ 1 ∷ 2 ∷ 3 ∷ []))

-- A run of zero segments: where it starts and how long it is.
abbrev Span : Type 0
Span = ℕ × ℕ

abbrev longer : Span → Span → Span
longer (start, len) (best, most) = if ltb most len then (start, len) else (best, most)

abbrev longest_zeros : ℕ → Span → Span → List ℕ → Span
longest_zeros i current longest [] = longest
longest_zeros i (start, zero) longest (zero ∷ s) =
    longest_zeros (i + 1) (i, 1) (longer (i, 1) longest) s
longest_zeros i (start, suc len) longest (zero ∷ s) =
    longest_zeros (i + 1) (start, suc len + 1) (longer (start, suc len + 1) longest) s
longest_zeros i current longest (suc _ ∷ s) = longest_zeros (i + 1) (0, 0) longest s

abbrev hex_segments : List ℕ → Text
hex_segments s = join_with (text ":") (map (radix_text 16) s)

abbrev compressed : List ℕ → Span → Text
compressed s (start, len) =
    if ltb 1 len
    then hex_segments (take start s) ++ (text "::" ++ hex_segments (drop (start + len) s))
    else hex_segments s

-- `Ipv6Addr::fmt`, which writes an address that maps an IPv4 one with that.
abbrev is_mapped : List ℕ → Bool
is_mapped s = all (λ x. x == 0) (take 5 s) && unwrap_or (get_elem? s 5) 0 == 0xffff

abbrev ipv6_text : List ℕ → List ℕ → Text
ipv6_text addr s =
    if is_mapped s
    then text "::ffff:" ++ dotted addr 12
    else compressed s (longest_zeros 0 (0, 0) (0, 0) s)

unfoldable pub format_addr : ℕ → List ℕ → Option Text
unfolding join_with decimal digits_in
format_addr family addr =
    if family == af_inet4
    then some (dotted addr 0)
    else if family == af_inet6
    then some (ipv6_text addr (segments 8 0 addr))
    else none

abbrev with_arg : Option (List ℕ) → List Text → List Text
with_arg none args = args
with_arg (some bytes) args = from_utf8_lossy bytes ∷ args

abbrev args_from : ProcRecord → ℕ → ℕ → List Text
args_from r zero index = []
args_from r (suc n) index = with_arg (arg r index) (args_from r n (index + 1))

unfoldable pub read_argv : ProcRecord → List Text
unfolding from_utf8_lossy arg
read_argv r = args_from r argv_max_args 0

abbrev downgraded : Bool → TracedPath → TracedPath
downgraded truncated traced = if truncated then record traced { origin = unresolved } else traced

abbrev pub target_of : FsEvent → Option Text → TracedPath
target_of e none = record { path = text "<unknown descriptor>"; origin = unresolved }
target_of e (some p) = downgraded e.path_truncated (classify_path p)

abbrev outcome_of : Option ℕ → Outcome
outcome_of none = success
outcome_of (some code) = failed (errno_name code)

abbrev pub write_of : FsEvent → FsWrite
write_of e = record {
  target = target_of e e.path;
  kind = write_kind_of e.write_kind;
  bytes = e.bytes;
  flags = if e.write_kind == write_write then some (text "requested_count") else none;
  mode = if e.mode == 0 then none else some (text "0o" ++ radix_text 8 e.mode);
  source = none;
  outcome = outcome_of e.errno;
}

abbrev family_of : ℕ → AddrFamily
family_of = in_table ((af_inet4, inet) ∷ (af_inet6, inet6) ∷ []) other_family

abbrev connect_payload : NetRecord → Text → Payload
connect_payload r ip = net_connect (record {
  family = family_of r.family;
  ip = some ip;
  port = if r.port == 0 then none else some r.port;
  unix_path = none;
  host = none;
  loopback = is_loopback ip;
  is_private = is_private ip;
  outcome = if has r.header flag_failed then failed (errno_name r.errno) else success;
})

abbrev pub observed_at : ℕ → Header → Text → Payload → Event
observed_at start header syscall payload =
    observed (meta_observed (session_relative_ns header.ktime_ns start) header.tgid syscall aya)
      payload

abbrev connect_event : ℕ → NetRecord → Option Text → Option Event
connect_event start r none = none
connect_event start r (some ip) =
    some (observed_at start r.header (text "connect") (connect_payload r ip))

abbrev visible_text : Text → Option Text
visible_text [] = none
visible_text (c ∷ s) = some (c ∷ s)

abbrev spawn_payload : ProcRecord → Payload
spawn_payload r = proc_spawn (record {
  bin = visible_text (trim_end_matches 0 (from_utf8_lossy (filename_bytes r)));
  argv = read_argv r;
  argv_truncated = has r.header flag_argv_truncated;
  outcome = success;
})

unfoldable pub to_event : Merged → ℕ → Option Event
unfolding classify_path format_addr read_argv is_loopback is_private has filename_bytes digits_in
to_event (fs e) start =
    some (observed_at start e.header (syscall_name_for e.write_kind) (fs_write (write_of e)))
to_event (net r) start = connect_event start r (format_addr r.family r.addr)
to_event (proc r) start = some (observed_at start r.header (text "execve") (spawn_payload r))
