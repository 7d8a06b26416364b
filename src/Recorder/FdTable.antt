-- ===== src/Recorder/FdTable.antt =====
-- recorder/src/fdtable.rs: the descriptors of each process and its working directory.
pub mod Updates
pub mod Forks
pub mod Calls
pub mod Refinement
use install_scope.Common.{
  ℕ, Bool, true, false, Option, none, some, List, [], ◌∷◌, ◌==◌, if◌then◌else◌, length,
}
use install_scope.Common.Int.{ℤ, pos, negsuc}
use install_scope.Common.Text.{Text}
use install_scope.Core.Events.{PathOrigin}
use install_scope.Recorder.Maps.{lookup, remove, insert}

-- What a descriptor refers to.
pub data FdTarget : Type 0 where
  file : Text → PathOrigin → FdTarget
  socket : Text → Option Text → Option ℕ → FdTarget

pub record FdTable : Type 0 where
  pub per_pid : List (ℕ × List (ℤ × FdTarget))
  pub cwd : List (ℕ × Text)

abbrev pub pid_eq : ℕ → ℕ → Bool
pid_eq a b = a == b

abbrev pub fd_eq : ℤ → ℤ → Bool
fd_eq (pos a) (pos b) = a == b
fd_eq (negsuc a) (negsuc b) = a == b
fd_eq _ _ = false

abbrev pub is_negative : ℤ → Bool
is_negative (pos _) = false
is_negative (negsuc _) = true

abbrev pub new_table : FdTable
new_table = record { per_pid = []; cwd = [] }

-- `entry(pid).or_default()`
abbrev pub or_default : Option (List (ℤ × FdTarget)) → List (ℤ × FdTarget)
or_default none = []
or_default (some table) = table

abbrev pub descriptors : FdTable → ℕ → List (ℤ × FdTarget)
descriptors t pid = or_default (lookup pid_eq pid t.per_pid)

-- `per_pid.entry(pid).or_default().insert(fd, target)`
abbrev pub put : FdTable → ℕ → ℤ → FdTarget → FdTable
put t pid fd target = record t {
  per_pid = insert pid_eq pid (insert fd_eq fd target (descriptors t pid)) t.per_pid;
}

unfoldable pub open_file : FdTable → ℕ → ℤ → Text → PathOrigin → FdTable
open_file t pid fd path origin = if is_negative fd then t else put t pid fd (file path origin)

unfoldable pub open_socket : FdTable → ℕ → ℤ → Text → FdTable
open_socket t pid fd description =
    if is_negative fd then t else put t pid fd (socket description none none)

-- A socket keeps its description; what is no socket, or is unknown, becomes one without.
abbrev pub with_peer : Option FdTarget → Option Text → Option ℕ → FdTarget
with_peer (some (socket description _ _)) ip port = socket description ip port
with_peer (some (file _ _)) ip port = socket [] ip port
with_peer none ip port = socket [] ip port

unfoldable pub set_socket_peer : FdTable → ℕ → ℤ → Option Text → Option ℕ → FdTable
set_socket_peer t pid fd ip port =
    if is_negative fd
    then t
    else put t pid fd (with_peer (lookup fd_eq fd (descriptors t pid)) ip port)

abbrev get_in : Option (List (ℤ × FdTarget)) → ℤ → Option FdTarget
get_in none fd = none
get_in (some table) fd = lookup fd_eq fd table

unfoldable pub get : FdTable → ℕ → ℤ → Option FdTarget
get t pid fd = get_in (lookup pid_eq pid t.per_pid) fd

abbrev pub peer_of : Option FdTarget → Option (Option Text × Option ℕ)
peer_of (some (socket _ ip port)) = some (ip, port)
peer_of (some (file _ _)) = none
peer_of none = none

unfoldable pub socket_peer : FdTable → ℕ → ℤ → Option (Option Text × Option ℕ)
unfolding get
socket_peer t pid fd = peer_of (get t pid fd)

abbrev pub close_in : Option (List (ℤ × FdTarget)) → FdTable → ℕ → ℤ → FdTable
close_in none t pid fd = t
close_in (some table) t pid fd = record t {
  per_pid = insert pid_eq pid (remove fd_eq fd table) t.per_pid;
}

unfoldable pub close : FdTable → ℕ → ℤ → FdTable
close t pid fd = close_in (lookup pid_eq pid t.per_pid) t pid fd

-- What the parent has, the child gets a copy of; what it has not leaves the child's as it is.
abbrev pub copied {ℓ} : {V : Type ℓ} → Option V → ℕ → List (ℕ × V) → List (ℕ × V)
copied none child m = m
copied (some v) child m = insert pid_eq child v m

unfoldable pub fork : FdTable → ℕ → ℕ → FdTable
fork t parent child = record {
  per_pid = copied (lookup pid_eq parent t.per_pid) child t.per_pid;
  cwd = copied (lookup pid_eq parent t.cwd) child t.cwd;
}

unfoldable pub process_exited : FdTable → ℕ → FdTable
process_exited t pid = record {
  per_pid = remove pid_eq pid t.per_pid;
  cwd = remove pid_eq pid t.cwd;
}

unfoldable pub set_cwd : FdTable → ℕ → Text → FdTable
set_cwd t pid dir = record t { cwd = insert pid_eq pid dir t.cwd }

unfoldable pub working_dir : FdTable → ℕ → Option Text
working_dir t pid = lookup pid_eq pid t.cwd

abbrev pub seeded : Option Text → FdTable → ℕ → Text → FdTable
seeded (some _) t pid dir = t
seeded none t pid dir = record t { cwd = insert pid_eq pid dir t.cwd }

unfoldable pub seed_cwd : FdTable → ℕ → Text → FdTable
seed_cwd t pid dir = seeded (lookup pid_eq pid t.cwd) t pid dir

unfoldable pub tracked_processes : FdTable → ℕ
tracked_processes t = length t.per_pid
