-- ===== src/Abi.antt =====
-- abi/src/lib.rs: the records that the kernel side hands over, with their constants and accessors.
pub mod Arguments
use Prim.Native.Nat.{bit_and}
use install_scope.Common.{
  ℕ, zero, suc, ◌+◌, ◌*◌, min, Bool, not, ◌||◌, Option, none, some, List, [], ◌∷◌, leb, ◌==◌,
  if◌then◌else◌, length, take, drop,
}
use install_scope.Common.Int.{ℤ, negsuc}
use install_scope.Common.Text.{Text}
use install_scope.Common.Text.Utf8.{from_utf8}

abbrev pub path_buf_len : ℕ
path_buf_len = 512

abbrev pub argv_max_args : ℕ
argv_max_args = 8

abbrev pub argv_arg_len : ℕ
argv_arg_len = 256

abbrev pub argv_buf_len : ℕ
argv_buf_len = 2048

abbrev pub comm_len : ℕ
comm_len = 16

abbrev pub addr_len : ℕ
addr_len = 16

abbrev pub kind_fs_write : ℕ
kind_fs_write = 1

abbrev pub kind_net_connect : ℕ
kind_net_connect = 2

abbrev pub kind_proc_spawn : ℕ
kind_proc_spawn = 3

abbrev pub kind_fs_read : ℕ
kind_fs_read = 4

abbrev pub kind_fd_close : ℕ
kind_fd_close = 5

abbrev pub flag_path_truncated : ℕ
flag_path_truncated = 1

abbrev pub flag_argv_truncated : ℕ
flag_argv_truncated = 2

abbrev pub flag_failed : ℕ
flag_failed = 4

abbrev pub flag_path_incomplete : ℕ
flag_path_incomplete = 8

abbrev pub flag_addr_unknown : ℕ
flag_addr_unknown = 16

abbrev pub write_open : ℕ
write_open = 1

abbrev pub write_write : ℕ
write_write = 2

abbrev pub write_create : ℕ
write_create = 3

abbrev pub write_truncate : ℕ
write_truncate = 4

abbrev pub write_mkdir : ℕ
write_mkdir = 5

abbrev pub write_rename : ℕ
write_rename = 6

abbrev pub write_delete : ℕ
write_delete = 7

abbrev pub write_symlink : ℕ
write_symlink = 8

abbrev pub write_hardlink : ℕ
write_hardlink = 9

abbrev pub write_chmod : ℕ
write_chmod = 10

abbrev pub write_chown : ℕ
write_chown = 11

abbrev pub af_inet4 : ℕ
af_inet4 = 2

abbrev pub af_inet6 : ℕ
af_inet6 = 10

abbrev pub no_fd : ℤ
no_fd = negsuc 0

pub record Header : Type 0 where
  pub kind : ℕ
  pub flags : ℕ
  pub ktime_ns : ℕ
  pub tgid : ℕ
  pub pid : ℕ
  pub ppid : ℕ
  pub uid : ℕ
  pub comm : List ℕ

-- `[0; n]`
unfoldable pub zeros : ℕ → List ℕ
zeros zero = []
zeros (suc n) = 0 ∷ zeros n

abbrev pub zeroed_header : Header
zeroed_header = record {
  kind = 0;
  flags = 0;
  ktime_ns = 0;
  tgid = 0;
  pid = 0;
  ppid = 0;
  uid = 0;
  comm = zeros comm_len;
}

unfoldable pub has : Header → ℕ → Bool
has h flag = not (bit_and h.flags flag == 0)

-- `position(|b| b == 0)`, or the length.
abbrev pub until_nul : List ℕ → ℕ
until_nul [] = 0
until_nul (b ∷ bytes) = let later = suc (until_nul bytes) in if b == 0 then 0 else later

-- `get(..end)`
abbrev pub get_to : ℕ → List ℕ → Option (List ℕ)
get_to end bytes = if leb end (length bytes) then some (take end bytes) else none

abbrev pub or_none : Option (List ℕ) → List ℕ
or_none none = []
or_none (some bytes) = bytes

unfoldable pub comm_str : Header → Option Text
unfolding from_utf8
comm_str h = elim (get_to (min (until_nul h.comm) comm_len) h.comm) [
  | none ↦ none
  | some bytes ↦ from_utf8 bytes
]

pub record FsRecord : Type 0 where
  pub header : Header
  pub bytes : ℕ
  pub write_kind : ℕ
  pub path_len : ℕ
  pub mode : ℕ
  pub errno : ℕ
  pub fd : ℤ
  pub path : List ℕ

unfoldable pub path_bytes : FsRecord → List ℕ
path_bytes r = or_none (get_to (min r.path_len path_buf_len) r.path)

pub record NetRecord : Type 0 where
  pub header : Header
  pub family : ℕ
  pub port : ℕ
  pub addr : List ℕ
  pub errno : ℕ

pub record ProcRecord : Type 0 where
  pub header : Header
  pub filename_len : ℕ
  pub argv_len : ℕ
  pub argc : ℕ
  pub filename : List ℕ
  pub argv : List ℕ

unfoldable pub filename_bytes : ProcRecord → List ℕ
filename_bytes r = or_none (get_to (min r.filename_len path_buf_len) r.filename)

unfoldable pub argv_bytes : ProcRecord → List ℕ
argv_bytes r = or_none (get_to (min r.argv_len argv_buf_len) r.argv)

-- `argv.get(start..start + ARGV_ARG_LEN)`
abbrev pub slot : List ℕ → ℕ → Option (List ℕ)
slot argv start =
    if leb (start + argv_arg_len) (length argv)
    then some (take argv_arg_len (drop start argv))
    else none

abbrev pub up_to_nul : Option (List ℕ) → Option (List ℕ)
up_to_nul none = none
up_to_nul (some s) = get_to (until_nul s) s

unfoldable pub arg : ProcRecord → ℕ → Option (List ℕ)
arg r index =
    if leb r.argc index || leb argv_max_args index
    then none
    else up_to_nul (slot r.argv (index * argv_arg_len))
