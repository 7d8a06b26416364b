-- ===== src/Core/Events.antt =====
-- core/src/events.rs: the event model that the recorders write and the rules engine reads. The JSON
-- encoding is `serde`'s and is not modelled; a text is a list of code points, an absent field `none`.
pub mod Reason
use install_scope.Common.{
  ℕ, Bool, true, false, Option, none, some, List, [], ◌∷◌, ◌++◌, ◌==◌, ◌&&◌, if◌then◌else◌,
  unwrap_or, not,
}
use install_scope.Common.Text.{Text, text, starts_with, join_with}
use install_scope.Common.Int.{ℤ}
use install_scope.Core.Events.Reason.{IncompleteReason}

abbrev pub schema_version_supported : ℕ
schema_version_supported = 1

pub data Backend : Type 0 where
  strace aya : Backend

pub record EventMeta : Type 0 where
  pub ts_ns : ℕ
  pub pid : Option ℕ
  pub syscall : Option Text
  pub backend : Backend

-- `EventMeta::observed` and `EventMeta::framing`
abbrev pub meta_observed : ℕ → ℕ → Text → Backend → EventMeta
meta_observed ts_ns pid syscall backend = record {
  ts_ns = ts_ns;
  pid = some pid;
  syscall = some syscall;
  backend = backend;
}

abbrev pub meta_framing : ℕ → Backend → EventMeta
meta_framing ts_ns backend = record { ts_ns = ts_ns; pid = none; syscall = none; backend = backend }

-- `ok` is three-valued: a known success, a known failure, or unknown.
pub record Outcome : Type 0 where
  pub ok : Option Bool
  pub error : Option Text

abbrev pub success : Outcome
success = record { ok = some true; error = none }

abbrev pub unknown_outcome : Outcome
unknown_outcome = record { ok = none; error = none }

abbrev pub failed : Text → Outcome
failed errno = record { ok = some false; error = some errno }

abbrev is_known_false : Option Bool → Bool
is_known_false none = false
is_known_false (some true) = false
is_known_false (some false) = true

unfoldable pub failed_known : Outcome → Bool
failed_known o = is_known_false o.ok

pub data PathOrigin : Type 0 where
  kernel absolute resolved_from_dirfd unresolved : PathOrigin

pub record TracedPath : Type 0 where
  pub path : Text
  pub origin : PathOrigin

abbrev is_unresolved : PathOrigin → Bool
is_unresolved unresolved = true
is_unresolved _ = false

unfoldable pub is_resolved : TracedPath → Bool
unfolding starts_with
is_resolved p = not (is_unresolved p.origin) && starts_with (text "/") p.path

-- The kinds of mutation; `open_file` is the source's `Open`, a word that antt reserves.
pub data WriteKind : Type 0 where
  open_file write create truncate mkdir rename delete symlink hardlink chmod chown : WriteKind

pub record FsWrite : Type 0 where
  pub target : TracedPath
  pub kind : WriteKind
  pub bytes : Option ℕ
  pub flags : Option Text
  pub mode : Option Text
  pub source : Option TracedPath
  pub outcome : Outcome

pub record FsRead : Type 0 where
  pub target : TracedPath
  pub bytes : Option ℕ
  pub outcome : Outcome

pub data AddrFamily : Type 0 where
  inet inet6 unix other_family : AddrFamily

pub record NetConnect : Type 0 where
  pub family : AddrFamily
  pub ip : Option Text
  pub port : Option ℕ
  pub unix_path : Option Text
  pub host : Option Text
  pub loopback : Bool
  pub is_private : Bool
  pub outcome : Outcome

pub record DnsQuery : Type 0 where
  pub qname : Text
  pub qtype : Option ℕ
  pub resolver_ip : Option Text
  pub outcome : Outcome

pub record ProcSpawn : Type 0 where
  pub bin : Option Text
  pub argv : List Text
  pub argv_truncated : Bool
  pub outcome : Outcome

-- `ProcSpawn::command_line`
abbrev command_line_of : Option Text → List Text → Text
command_line_of bin [] = unwrap_or bin []
command_line_of bin (arg ∷ args) = join_with (text " ") (arg ∷ args)

unfoldable pub command_line : ProcSpawn → Text
unfolding join_with
command_line spawn = command_line_of spawn.bin spawn.argv

pub record HostInfo : Type 0 where
  pub kernel : Option Text
  pub os : Option Text
  pub arch : Option Text
  pub backend_version : Option Text

-- The directories that a recording declares as expected.
pub record Zones : Type 0 where
  pub project : Option Text
  pub cache : Option Text
  pub home : Option Text
  pub tmp : Option Text
  pub extra : List Text

abbrev pub no_zones : Zones
no_zones = record { project = none; cache = none; home = none; tmp = none; extra = [] }

pub record SessionStart : Type 0 where
  pub wall_clock_utc : Text
  pub agent_version : Text
  pub command : List Text
  pub zones : Zones
  pub host : Option HostInfo

pub record Heartbeat : Type 0 where
  pub seq : ℕ
  pub events_so_far : ℕ
  pub phase : Option Text

pub record SessionEnd : Type 0 where
  pub complete : Bool
  pub incomplete_reasons : List IncompleteReason
  pub command_exit_code : Option ℤ
  pub command_signal : Option ℤ
  pub duration_ns : ℕ
  pub events_emitted : ℕ
  pub heartbeats : ℕ

-- `SessionEnd::complete` and `SessionEnd::partial`
abbrev pub end_complete : Option ℤ → ℕ → ℕ → ℕ → SessionEnd
end_complete command_exit_code duration_ns events_emitted heartbeats = record {
  complete = true;
  incomplete_reasons = [];
  command_exit_code = command_exit_code;
  command_signal = none;
  duration_ns = duration_ns;
  events_emitted = events_emitted;
  heartbeats = heartbeats;
}

abbrev pub end_partial :
    IncompleteReason → List IncompleteReason → Option ℤ → ℕ → ℕ → ℕ → SessionEnd
end_partial first_reason rest command_exit_code duration_ns events_emitted heartbeats = record {
  complete = false;
  incomplete_reasons = first_reason ∷ rest;
  command_exit_code = command_exit_code;
  command_signal = none;
  duration_ns = duration_ns;
  events_emitted = events_emitted;
  heartbeats = heartbeats;
}

pub data Payload : Type 0 where
  session_start : SessionStart → Payload
  fs_write : FsWrite → Payload
  fs_read : FsRead → Payload
  net_connect : NetConnect → Payload
  dns_query : DnsQuery → Payload
  proc_spawn : ProcSpawn → Payload
  heartbeat : Heartbeat → Payload
  session_end : SessionEnd → Payload

-- `Payload::op` and `Payload::is_framing`
unfoldable pub op : Payload → Text
op (session_start _) = text "session_start"
op (fs_write _) = text "fs_write"
op (fs_read _) = text "fs_read"
op (net_connect _) = text "net_connect"
op (dns_query _) = text "dns_query"
op (proc_spawn _) = text "proc_spawn"
op (heartbeat _) = text "heartbeat"
op (session_end _) = text "session_end"

unfoldable pub is_framing : Payload → Bool
is_framing (session_start _) = true
is_framing (session_end _) = true
is_framing (heartbeat _) = true
is_framing _ = false

pub record Event : Type 0 where
  pub schema_version : ℕ
  pub meta : EventMeta
  pub payload : Payload

-- `Event::observed` and `Event::framing`
abbrev pub observed : EventMeta → Payload → Event
observed meta payload = record {
  schema_version = schema_version_supported;
  meta = meta;
  payload = payload;
}

abbrev pub framing : ℕ → Backend → Payload → Event
framing ts_ns backend payload = record {
  schema_version = schema_version_supported;
  meta = meta_framing ts_ns backend;
  payload = payload;
}
