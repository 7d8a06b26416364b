-- ===== src/Recorder/Resolving.antt =====
-- recorder/src/fdtable.rs: `resolve`, which turns a path argument into a path with its origin.
pub mod Honesty
use install_scope.Common.{ℕ, Bool, true, false, Option, none, some, if◌then◌else◌}
use install_scope.Common.Int.{ℤ}
use install_scope.Common.Text.{Text, text, text_eq, starts_with}
use install_scope.Core.Events.{
  TracedPath, PathOrigin, kernel, absolute, resolved_from_dirfd, unresolved,
}
use install_scope.Recorder.Paths.{normalize, join}
use install_scope.Recorder.FdTable.{FdTable, FdTarget, file, socket, get, working_dir}
use install_scope.Recorder.Descriptors.{fd_annotation, fd_number}

abbrev pub traced : Text → PathOrigin → TracedPath
traced path origin = record { path = path; origin = origin }

-- The working directory, if it is known.
abbrev pub in_directory : Option Text → Text → TracedPath
in_directory none raw = traced raw unresolved
in_directory (some dir) raw = traced (join dir raw) resolved_from_dirfd

abbrev pub opened : FdTable → ℕ → Option ℤ → Option FdTarget
opened t pid none = none
opened t pid (some fd) = get t pid fd

-- The table's entry for the descriptor, if it is a file.
abbrev pub from_table : Option FdTarget → Text → TracedPath
from_table (some (file path _)) raw = traced (join path raw) resolved_from_dirfd
from_table (some (socket _ _ _)) raw = traced raw unresolved
from_table none raw = traced raw unresolved

-- The annotation of the descriptor before the table.
abbrev pub from_annotation : Option Text → Text → TracedPath → TracedPath
from_annotation none raw otherwise = otherwise
from_annotation (some annotation) raw otherwise =
    if starts_with (text "/") annotation
    then traced (join annotation raw) resolved_from_dirfd
    else otherwise

abbrev pub at_descriptor : FdTable → ℕ → Text → Text → TracedPath
at_descriptor t pid arg raw =
    from_annotation (fd_annotation arg) raw (from_table (opened t pid (fd_number arg)) raw)

abbrev pub resolve_relative : FdTable → ℕ → Option Text → Text → TracedPath
resolve_relative t pid none raw = in_directory (working_dir t pid) raw
resolve_relative t pid (some arg) raw =
    if text_eq arg (text "AT_FDCWD")
    then in_directory (working_dir t pid) raw
    else at_descriptor t pid arg raw

abbrev pub resolve_raw : FdTable → ℕ → Option Text → Option Text → Option TracedPath
resolve_raw t pid dirfd_arg none = none
resolve_raw t pid dirfd_arg (some raw) =
    if starts_with (text "/") raw
    then some (traced (normalize raw) absolute)
    else some (resolve_relative t pid dirfd_arg raw)

-- The kernel's own annotation of the result before everything else.
abbrev pub from_kernel : Option Text → Option TracedPath → Option TracedPath
from_kernel none otherwise = otherwise
from_kernel (some annotation) otherwise =
    if starts_with (text "/") annotation
    then some (traced (normalize annotation) kernel)
    else otherwise

unfoldable pub resolve : FdTable → ℕ → Option Text → Option Text → Option Text → Option TracedPath
resolve t pid dirfd_arg raw_path ret_annotation =
    from_kernel ret_annotation (resolve_raw t pid dirfd_arg raw_path)
