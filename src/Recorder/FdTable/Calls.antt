-- ===== src/Recorder/FdTable/Calls.antt =====
-- recorder/src/fdtable.rs: the calls on a table, and what they mean for functions of a process and a
-- descriptor.
use install_scope.Common.{ℕ, Option, none, some, List, [], ◌∷◌, if◌then◌else◌}
use install_scope.Common.Int.{ℤ}
use install_scope.Common.Text.{Text}
use install_scope.Core.Events.{PathOrigin}
use install_scope.Recorder.FdTable.{
  FdTarget, file, socket, FdTable, pid_eq, fd_eq, is_negative, open_file, open_socket, with_peer,
  set_socket_peer, close, fork, process_exited, set_cwd, seed_cwd,
}

-- The calls that change a table.
pub data Call : Type 0 where
  call_open_file : (pid : ℕ) (fd : ℤ) (path : Text) (origin : PathOrigin) → Call
  call_open_socket : (pid : ℕ) (fd : ℤ) (description : Text) → Call
  call_set_socket_peer : (pid : ℕ) (fd : ℤ) (ip : Option Text) (port : Option ℕ) → Call
  call_close : (pid : ℕ) (fd : ℤ) → Call
  call_fork : (parent child : ℕ) → Call
  call_process_exited : (pid : ℕ) → Call
  call_set_cwd : (pid : ℕ) (dir : Text) → Call
  call_seed_cwd : (pid : ℕ) (dir : Text) → Call

abbrev pub make : Call → FdTable → FdTable
make (call_open_file pid fd path origin) t = open_file t pid fd path origin
make (call_open_socket pid fd description) t = open_socket t pid fd description
make (call_set_socket_peer pid fd ip port) t = set_socket_peer t pid fd ip port
make (call_close pid fd) t = close t pid fd
make (call_fork parent child) t = fork t parent child
make (call_process_exited pid) t = process_exited t pid
make (call_set_cwd pid dir) t = set_cwd t pid dir
make (call_seed_cwd pid dir) t = seed_cwd t pid dir

abbrev pub make_all : List Call → FdTable → FdTable
make_all [] t = t
make_all (c ∷ calls) t = make_all calls (make c t)

-- What a process has open, and what a table says: the descriptors of each process that has a table of
-- them, and the directory of each that has one.
abbrev pub Descriptors : Type 0
Descriptors = ℤ → Option FdTarget

pub record View : Type 0 where
  pub open_in : ℕ → Option Descriptors
  pub dir_of : ℕ → Option Text

abbrev pub at_pid {ℓ} : {V : Type ℓ} → (ℕ → V) → ℕ → V → ℕ → V
at_pid f pid v p = if pid_eq p pid then v else f p

abbrev pub at_fd : Descriptors → ℤ → Option FdTarget → Descriptors
at_fd f fd v d = if fd_eq d fd then v else f d

abbrev pub nothing_open : Option Descriptors → Descriptors
nothing_open none d = none
nothing_open (some f) d = f d

abbrev pub referring : View → ℕ → ℤ → FdTarget → View
referring v pid fd target = if is_negative fd then v else record v {
  open_in = at_pid v.open_in pid (some (at_fd (nothing_open (v.open_in pid)) fd (some target)));
}

abbrev pub given {ℓ} : {V : Type ℓ} → (ℕ → Option V) → ℕ → Option V → ℕ → Option V
given f pid none = f
given f pid (some v) = at_pid f pid (some v)

abbrev pub closed_in : Option Descriptors → ℤ → Option Descriptors
closed_in none fd = none
closed_in (some f) fd = some (at_fd f fd none)

-- What each call means: it says which one entry changes, and to what.
abbrev pub meaning : Call → View → View
meaning (call_open_file pid fd path origin) v = referring v pid fd (file path origin)
meaning (call_open_socket pid fd description) v = referring v pid fd (socket description none none)
meaning (call_set_socket_peer pid fd ip port) v =
    referring v pid fd (with_peer (nothing_open (v.open_in pid) fd) ip port)
meaning (call_close pid fd) v = record v {
  open_in = at_pid v.open_in pid (closed_in (v.open_in pid) fd);
}
meaning (call_fork parent child) v = record {
  open_in = given v.open_in child (v.open_in parent);
  dir_of = given v.dir_of child (v.dir_of parent);
}
meaning (call_process_exited pid) v = record {
  open_in = at_pid v.open_in pid none;
  dir_of = at_pid v.dir_of pid none;
}
meaning (call_set_cwd pid dir) v = record v { dir_of = at_pid v.dir_of pid (some dir) }
meaning (call_seed_cwd pid dir) v = record v {
  dir_of = elim (v.dir_of pid) [ none ↦ at_pid v.dir_of pid (some dir) | some _ ↦ v.dir_of ];
}

abbrev pub meaning_all : List Call → View → View
meaning_all [] v = v
meaning_all (c ∷ calls) v = meaning_all calls (meaning c v)

abbrev pub empty_view : View
empty_view = record { open_in = λ p. none; dir_of = λ p. none }
