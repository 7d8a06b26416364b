-- ===== src/Recorder/Tests.antt =====
-- Tests of the recorder's tables and paths, and an instance of each theorem about them.
use mathlib.Core.List.{reverse}
use install_scope.Recorder.Descriptors.{fd_number, fd_annotation}
use install_scope.Common.{
  inl, inr, List, [], ◌∷◌, ◌++◌, ℕ, ◌≡◌, refl, ◌≢◌, ◌⊎◌, none, some, if◌then◌else◌, arith,
}
use install_scope.Common.Int.{pos}
use install_scope.Common.Text.{trim, text_eq, split, join_with, Text, text, starts_with}
use install_scope.Core.Errors.{ok, display_error, malformed_event, unsupported_schema_version}
use install_scope.Common.Text.Lines.{lines}
use install_scope.Recorder.Session.{from_jsonl, summarize_stream}
use install_scope.Recorder.Session.Summaries.{read_lines, Outcomes, summarize_stream_lem}
use install_scope.Core.Events.{
  Event, framing, strace, heartbeat, Heartbeat, session_end, end_complete, absolute, kernel,
  unresolved, resolved_from_dirfd,
}
use install_scope.Recorder.Paths.{join, normalize}
use install_scope.Recorder.Paths.Normal.{IsNormal}
use install_scope.Recorder.Paths.Reduction.{Resolves, normalize_lem}
use install_scope.Recorder.FdTable.{
  FdTable, file, new_table, get, socket_peer, working_dir, open_file, fork, set_cwd,
}
use install_scope.Recorder.FdTable.Calls.{
  Call, call_open_file, call_set_cwd, call_fork, call_close, call_seed_cwd, make_all,
}
use install_scope.Recorder.FdTable.Refinement.{make_all_refines}
use install_scope.Recorder.FdTable.Forks.{FindsTheSame, fork-isolates}
use install_scope.Recorder.Resolving.{resolve, traced}
use install_scope.Recorder.Resolving.Honesty.{IsFound, IsVerbatim, IsAdrift, resolve-IsHonest}

normalized_up : normalize (text "/a/./b/../../../c//d") ≡ text "/c/d"
unfolding normalize starts_with join_with split text_eq
normalized_up = refl

normalized_relative : normalize (text "../a/../../b/") ≡ text "../../b"
unfolding normalize starts_with join_with split text_eq
normalized_relative = refl

normalize_lem_example :
    (n : IsNormal
      (starts_with (text "/") (text "../a/../../b/"))
      (normalize (text "../a/../../b/")))
    × Resolves
        (starts_with (text "/") (text "../a/../../b/"))
        (split b'/' (text "../a/../../b/"))
        (reverse n.stack)
    × (normalize (normalize (text "../a/../../b/")) ≡ normalize (text "../a/../../b/"))
normalize_lem_example = normalize_lem (text "../a/../../b/")

-- Process 7 in /work with the directory /etc open as 3, and its child 8.
abbrev one_process : FdTable
one_process = set_cwd (open_file new_table 7 (pos 3) (text "/etc") absolute) 7 (text "/work")

abbrev two_processes : FdTable
two_processes = fork one_process 7 8

child_inherits :
    resolve two_processes 8 (some (text "3")) (some (text "cron.d/../passwd")) none
    ≡ some (traced (text "/etc/passwd") resolved_from_dirfd)
unfolding resolve starts_with text_eq fd_annotation fd_number get fork set_cwd open_file join
    normalize join_with
child_inherits = refl

resolve-IsHonest_example :
    IsFound two_processes 8
      (some (text "3"))
      (some (text "cron.d/../passwd"))
      none
      (traced (text "/etc/passwd") resolved_from_dirfd)
    ⊎ IsVerbatim (some (text "cron.d/../passwd")) (traced (text "/etc/passwd") resolved_from_dirfd)
    ⊎ IsAdrift two_processes 8
        (some (text "3"))
        (some (text "cron.d/../passwd"))
        (traced (text "/etc/passwd") resolved_from_dirfd)
resolve-IsHonest_example =
    resolve-IsHonest two_processes 8 (some (text "3")) (some (text "cron.d/../passwd")) none
      (traced (text "/etc/passwd") resolved_from_dirfd) child_inherits

-- A relative path that was registered is taken for a base.
adrift :
    resolve
      (open_file new_table 7 (pos 3) (text "d") unresolved)
      7
      (some (text "3"))
      (some (text "f"))
      none
    ≡ some (traced (text "d/f") resolved_from_dirfd)
unfolding resolve starts_with text_eq fd_annotation fd_number get open_file join normalize join_with
    split
adrift = refl

abbrev forked_calls : List Call
forked_calls =
    call_open_file 7 (pos 3) (text "/tmp/x") kernel
    ∷ call_set_cwd 7 (text "/tmp")
    ∷ call_fork 7 8
    ∷ call_close 7 (pos 3)
    ∷ call_seed_cwd 8 (text "/")
    ∷ []

-- The child keeps what the parent closed.
make_all_refines_example :
    (get (make_all forked_calls new_table) 8 (pos 3) ≡ some (file (text "/tmp/x") kernel))
    × (socket_peer (make_all forked_calls new_table) 8 (pos 3) ≡ none)
    × (working_dir (make_all forked_calls new_table) 8 ≡ some (text "/tmp"))
make_all_refines_example = make_all_refines forked_calls 8 (pos 3)

abbrev parent_pid : ℕ
parent_pid = 7

apart : parent_pid ≢ 8
apart e = ground arith

abbrev calls_of_child : List Call
calls_of_child =
    call_close 8 (pos 3)
    ∷ call_open_file 8 (pos 3) (text "/tmp/x") kernel
    ∷ call_set_cwd 8 (text "/tmp")
    ∷ []

abbrev calls_of_parent : List Call
calls_of_parent = call_close 7 (pos 3) ∷ call_seed_cwd 7 (text "/") ∷ []

fork-isolates_example :
    FindsTheSame 7 one_process (make_all calls_of_child (fork one_process 7 8))
    × FindsTheSame 8 (fork one_process 7 8) (make_all calls_of_parent (fork one_process 7 8))
fork-isolates_example =
    fork-isolates one_process 7 8 calls_of_child calls_of_parent apart (refl, (refl, (refl, tt)))
      (refl, (refl, tt))

abbrev first_beat : Heartbeat
first_beat = record { seq = 1; events_so_far = 0; phase = none }

-- A parser that knows two lines.
abbrev two_lines : Text → Text ⊎ Event
two_lines line =
    if text_eq line (text "start")
    then inr (framing 0 strace (heartbeat first_beat))
    else if text_eq line (text "end")
    then inr (framing 9 strace (session_end (end_complete none 9 0 1)))
    else inl (text "expected value")

abbrev whole_stream : Text
whole_stream = text "start" ++ 10 ∷ 13 ∷ 10 ∷ text "end" ++ 10 ∷ []

whole_stream-read :
    read_lines two_lines 0 (lines whole_stream)
    ≡ ok (
        framing 0 strace (heartbeat first_beat)
        ∷ framing 9 strace (session_end (end_complete none 9 0 1))
        ∷ [])
unfolding lines trim from_jsonl text_eq
whole_stream-read = refl

summarize_stream_lem_example :
    Outcomes (read_lines two_lines 0 (lines whole_stream)) (summarize_stream two_lines whole_stream)
summarize_stream_lem_example = summarize_stream_lem two_lines whole_stream

malformed_message :
    display_error (malformed_event 12 (text "expected value"))
    ≡ text "malformed event on line 12: expected value"
unfolding display_error
malformed_message = refl

unsupported_message :
    display_error (unsupported_schema_version 2 1)
    ≡ text "unsupported schema_version 2; this build understands 1"
unfolding display_error
unsupported_message = refl
