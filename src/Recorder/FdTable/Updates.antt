-- ===== src/Recorder/FdTable/Updates.antt =====
-- recorder/src/fdtable.rs: the equality of the keys of the table.
use install_scope.Common.{ℕ, ◌≡◌, ◌↔◌, true, arith, ==_iff}
use install_scope.Common.Int.{ℤ, pos, negsuc}
use install_scope.Recorder.FdTable.{pid_eq, fd_eq}

pub pid_eq_iff : (a b : ℕ) → (pid_eq a b ≡ true) ↔ (a ≡ b)
pid_eq_iff a b = ==_iff a b

pub fd_eq_iff : (a b : ℤ) → (fd_eq a b ≡ true) ↔ (a ≡ b)
fd_eq_iff (pos a) (pos b) = ground (arith, ==_iff a b)
fd_eq_iff (negsuc a) (negsuc b) = ground (arith, ==_iff a b)
fd_eq_iff (pos a) (negsuc b) = ground arith
fd_eq_iff (negsuc a) (pos b) = ground arith
