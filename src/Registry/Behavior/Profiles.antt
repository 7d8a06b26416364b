-- ===== src/Registry/Behavior/Profiles.antt =====
-- registry/src/behavior.rs: `profile_of`, with its loop over the events.
use mathlib.Core.List.{reverse}
use install_scope.Common.{
  ℕ, Bool, false, Option, none, some, List, [], ◌∷◌, filter, length, if◌then◌else◌, unwrap_or,
  saturating_add_u32,
}
use install_scope.Common.Text.{Text}
use install_scope.Common.Ordered.{add}
use install_scope.Core.Events.{
  Backend, strace, Event, Payload, session_start, fs_write, fs_read, net_connect, dns_query,
  proc_spawn, heartbeat, session_end, FsWrite, FsRead, ProcSpawn, Zones, no_zones, failed_known,
}
use install_scope.Core.Catalog.{basename, to_ascii_lowercase}
use install_scope.Registry.Behavior.{
  Behavior, BehaviorClass, class_of, class_eq, read_credential, resolved, spawned,
  spawned_shell_pipeline, Placed, placed_unresolvable, into_display_path, place, write_behavior,
  connect_behavior, shell_pipeline_tool,
}
use install_scope.Registry.Behavior.Keys.{behavior_cmp}

pub record Profile : Type 0 where
  pub backend : Backend
  pub complete : Bool
  pub behaviors : List Behavior
  pub unresolved_paths : ℕ

abbrev pub in_class : Profile → BehaviorClass → List Behavior
in_class p class = filter (λ b. class_eq (class_of b) class) p.behaviors

abbrev pub profile_len : Profile → ℕ
profile_len p = length p.behaviors

abbrev zones_in : Payload → Option Zones
zones_in (session_start start) = some start.zones
zones_in _ = none

-- `find_map(…).unwrap_or_default()` over the events
unfoldable pub recorded_zones : List Event → Zones
recorded_zones [] = no_zones
recorded_zones (e ∷ events) = unwrap_or (zones_in e.payload) (recorded_zones events)

abbrev ended_in : Payload → Option Bool
ended_in (session_end end) = some end.complete
ended_in _ = none

unfoldable pub first_end : List Event → Bool
first_end [] = false
first_end (e ∷ events) = unwrap_or (ended_in e.payload) (first_end events)

-- The last `session_end` of the recording.
abbrev pub recorded_complete : List Event → Bool
recorded_complete events = first_end (reverse events)

abbrev pub recorded_backend : List Event → Backend
recorded_backend [] = strace
recorded_backend (e ∷ _) = e.meta.backend

-- The behaviours so far, and the paths that could not be placed.
pub record Reduced : Type 0 where
  pub behaviors : List Behavior
  pub unresolved_paths : ℕ

abbrev pub note_behavior : Behavior → Reduced → Reduced
note_behavior b r = record r { behaviors = add behavior_cmp b r.behaviors }

abbrev pub note_option : Option Behavior → Reduced → Reduced
note_option none r = r
note_option (some b) r = note_behavior b r

abbrev pub note_placed : Placed → Reduced → Reduced
note_placed (placed_unresolvable _) r = record r {
  unresolved_paths = saturating_add_u32 r.unresolved_paths 1;
}
note_placed _ r = r

abbrev pub reduce_write : Zones → FsWrite → Reduced → Reduced
reduce_write zones w r =
    let placed = place w.target zones in
    if failed_known w.outcome
    then r
    else note_behavior (write_behavior placed w.kind) (note_placed placed r)

-- A failed read is kept.
abbrev pub reduce_read : Zones → FsRead → Reduced → Reduced
reduce_read zones read r =
    let placed = place read.target zones in
    note_behavior (read_credential (into_display_path placed)) (note_placed placed r)

abbrev pub spawned_as : Text → Option Behavior
spawned_as [] = none
spawned_as (c ∷ program) = some (spawned (c ∷ program))

abbrev pub program_of : Option Text → Option Behavior
program_of none = none
program_of (some bin) = spawned_as (basename bin)

abbrev pub pipeline_of : Option Text → Option Behavior
pipeline_of none = none
pipeline_of (some tool) = some (spawned_shell_pipeline tool)

abbrev pub reduce_spawn : ProcSpawn → Reduced → Reduced
reduce_spawn spawn r =
    note_option (pipeline_of (shell_pipeline_tool spawn.argv))
      (note_option (program_of spawn.bin) r)

unfoldable pub reduce : Zones → Payload → Reduced → Reduced
reduce zones (fs_write w) r = reduce_write zones w r
reduce zones (fs_read read) r = reduce_read zones read r
reduce zones (net_connect connect) r = note_option (connect_behavior connect) r
reduce zones (dns_query query) r = note_behavior (resolved (to_ascii_lowercase query.qname)) r
reduce zones (proc_spawn spawn) r = reduce_spawn spawn r
reduce zones (session_start _) r = r
reduce zones (session_end _) r = r
reduce zones (heartbeat _) r = r

unfoldable pub reduce_all : Zones → List Event → Reduced → Reduced
unfolding reduce
reduce_all zones [] r = r
reduce_all zones (e ∷ events) r = reduce_all zones events (reduce zones e.payload r)

abbrev profile_from : Reduced → List Event → Profile
profile_from r events = record {
  backend = recorded_backend events;
  complete = recorded_complete events;
  behaviors = r.behaviors;
  unresolved_paths = r.unresolved_paths;
}

unfoldable pub profile_of : List Event → Profile
unfolding recorded_zones first_end reduce_all
profile_of events =
    profile_from
      (reduce_all (recorded_zones events) events (record { behaviors = []; unresolved_paths = 0 }))
      events
