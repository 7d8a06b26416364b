-- ===== src/Registry/Behavior.antt =====
-- registry/src/behavior.rs: what a recording did, reduced to facts that two recordings share.
pub mod Profiles
pub mod Keys
pub mod Outside
use install_scope.Common.{
  ℕ, Bool, true, false, not, ◌&&◌, ◌||◌, Option, none, some, List, [], ◌∷◌, ◌++◌, any, filter, find,
  if◌then◌else◌, length, ◌==◌, leb, compare, Ordering,
}
use install_scope.Common.Text.{
  Text, text, text_eq, strip_prefix, trim_end_matches, trim_start_matches, trim_end_where,
  trim_start_where, split_where, join_with,
}
use install_scope.Common.Text.Decimal.{decimal}
use install_scope.Common.Text.Order.{text_cmp}
use install_scope.Common.Compare.{Comparison, lexicographic, compare_by}
use install_scope.Core.Events.{
  WriteKind, open_file, write, create, truncate, mkdir, rename, delete, symlink, hardlink, chmod,
  chown, Zones, NetConnect, TracedPath,
}
use install_scope.Core.Zones.{
  Zone, project, cache, home, tmp, declared, zone_name, Placement, inside, outside, unresolvable,
  runtime, placement_of,
}
use install_scope.Core.Catalog.{basename}

pub data Behavior : Type 0 where
  wrote : (zone : Zone) (relative : Text) (kind : WriteKind) → Behavior
  wrote_outside : (path : Text) (kind : WriteKind) → Behavior
  wrote_runtime : (path : Text) (kind : WriteKind) → Behavior
  wrote_unresolved : (raw : Text) (kind : WriteKind) → Behavior
  read_credential : (path : Text) → Behavior
  resolved : (qname : Text) → Behavior
  connected : (port : ℕ) (loopback is_private : Bool) → Behavior
  connected_unix : (path : Text) → Behavior
  spawned : (program : Text) → Behavior
  spawned_shell_pipeline : (tool : Text) → Behavior

pub data BehaviorClass : Type 0 where
  filesystem filesystem_escape credential_read network process : BehaviorClass

abbrev pub behavior_classes : List BehaviorClass
behavior_classes = filesystem_escape ∷ credential_read ∷ network ∷ process ∷ filesystem ∷ []

unfoldable pub class_text : BehaviorClass → Text
class_text filesystem = text "filesystem"
class_text filesystem_escape = text "writes outside expected directories"
class_text credential_read = text "credential reads"
class_text network = text "network"
class_text process = text "processes"

abbrev pub class_of : Behavior → BehaviorClass
class_of (wrote _ _ _) = filesystem
class_of (wrote_runtime _ _) = filesystem
class_of (wrote_unresolved _ _) = filesystem
class_of (wrote_outside _ _) = filesystem_escape
class_of (read_credential _) = credential_read
class_of (resolved _) = network
class_of (connected _ _ _) = network
class_of (connected_unix _) = network
class_of (spawned _) = process
class_of (spawned_shell_pipeline _) = process

abbrev pub class_rank : BehaviorClass → ℕ
class_rank filesystem = 0
class_rank filesystem_escape = 1
class_rank credential_read = 2
class_rank network = 3
class_rank process = 4

abbrev pub class_eq : BehaviorClass → BehaviorClass → Bool
class_eq a b = class_rank a == class_rank b

abbrev is_notable_class : BehaviorClass → Bool
is_notable_class filesystem = false
is_notable_class _ = true

abbrev pub is_notable : Behavior → Bool
is_notable b = is_notable_class (class_of b)

unfoldable pub verb : WriteKind → Text
verb open_file = text "wrote"
verb write = text "wrote"
verb create = text "wrote"
verb truncate = text "truncated"
verb mkdir = text "created directory"
verb rename = text "renamed to"
verb delete = text "deleted"
verb symlink = text "symlinked"
verb hardlink = text "hardlinked"
verb chmod = text "changed permissions on"
verb chown = text "changed owner of"

abbrev scope_text : Bool → Bool → Text
scope_text loopback is_private =
    if loopback then text " (loopback)" else if is_private then text " (private network)" else []

unfoldable pub behavior_summary : Behavior → Text
behavior_summary (wrote zone relative kind) =
    verb kind ++ text " " ++ zone_name zone ++ text "/" ++ relative
behavior_summary (wrote_outside path kind) =
    verb kind ++ text " " ++ path ++ text " (outside expected directories)"
behavior_summary (wrote_runtime path kind) = verb kind ++ text " " ++ path
behavior_summary (wrote_unresolved raw kind) =
    verb kind ++ text " " ++ raw ++ text " (path unresolved by the recorder)"
behavior_summary (read_credential path) = text "read " ++ path
behavior_summary (resolved qname) = text "resolved " ++ qname
behavior_summary (connected port loopback is_private) =
    text "connected to port " ++ decimal port ++ scope_text loopback is_private
behavior_summary (connected_unix path) = text "connected to unix socket " ++ path
behavior_summary (spawned program) = text "ran " ++ program
behavior_summary (spawned_shell_pipeline tool) =
    text "piped " ++ tool ++ text " output into a shell"

abbrev pub network_tools : List Text
network_tools = text "curl" ∷ text "wget" ∷ text "fetch" ∷ text "aria2c" ∷ []

abbrev pub shell_names : List Text
shell_names =
    text "sh"
    ∷ text "bash"
    ∷ text "zsh"
    ∷ text "dash"
    ∷ text "ksh"
    ∷ text "python"
    ∷ text "python3"
    ∷ text "node"
    ∷ text "perl"
    ∷ text "ruby"
    ∷ []

-- Where a path sits, with the zone's prefix removed.
pub data Placed : Type 0 where
  placed_inside : (zone : Zone) (relative : Text) → Placed
  placed_outside : Text → Placed
  placed_runtime : Text → Placed
  placed_unresolvable : Text → Placed

abbrev pub into_display_path : Placed → Text
into_display_path (placed_inside zone relative) = zone_name zone ++ text "/" ++ relative
into_display_path (placed_outside path) = path
into_display_path (placed_runtime path) = path
into_display_path (placed_unresolvable path) = path

abbrev pub zone_prefix : Zone → Zones → Option Text
zone_prefix project zones = zones.project
zone_prefix cache zones = zones.cache
zone_prefix home zones = zones.home
zone_prefix tmp zones = zones.tmp
zone_prefix declared zones = none

abbrev or_itself : Text → Text
or_itself [] = text "."
or_itself (c ∷ rest) = c ∷ rest

abbrev without_prefix : Option Text → Text → Text
without_prefix (some rest) path = or_itself (trim_start_matches b'/' rest)
without_prefix none path = trim_start_matches b'/' path

abbrev relative_to_trimmed : Text → Text → Text
relative_to_trimmed path [] = trim_start_matches b'/' path
relative_to_trimmed path (c ∷ trimmed) = without_prefix (strip_prefix (c ∷ trimmed) path) path

unfoldable pub relative_to : Text → Text → Text
unfolding strip_prefix trim_end_where trim_start_where
relative_to path prefix = relative_to_trimmed path (trim_end_matches b'/' prefix)

abbrev or_nothing : Option Text → Text
or_nothing none = []
or_nothing (some prefix) = prefix

abbrev pub placed_at : Placement → Text → Zones → Placed
placed_at (inside zone) path zones =
    placed_inside zone (relative_to path (or_nothing (zone_prefix zone zones)))
placed_at outside path zones = placed_outside path
placed_at runtime path zones = placed_runtime path
placed_at unresolvable path zones = placed_unresolvable path

unfoldable pub place : TracedPath → Zones → Placed
unfolding relative_to
place path zones = placed_at (placement_of path zones) path.path zones

abbrev pub write_behavior : Placed → WriteKind → Behavior
write_behavior (placed_inside zone relative) kind = wrote zone relative kind
write_behavior (placed_outside path) kind = wrote_outside path kind
write_behavior (placed_runtime path) kind = wrote_runtime path kind
write_behavior (placed_unresolvable raw) kind = wrote_unresolved raw kind

abbrev connected_to : Option ℕ → Bool → Bool → Option Behavior
connected_to none loopback is_private = none
connected_to (some port) loopback is_private =
    if not (port == 0) then some (connected port loopback is_private) else none

abbrev connect_by : Option Text → NetConnect → Option Behavior
connect_by (some path) connect = some (connected_unix path)
connect_by none connect = connected_to connect.port connect.loopback connect.is_private

abbrev pub connect_behavior : NetConnect → Option Behavior
connect_behavior connect = connect_by connect.unix_path connect

-- `split_once('|')`: the part behind the first bar, after the part before it.
abbrev pub split_bar : Text → Option (Text × Text)
split_bar [] = none
split_bar (c ∷ s) =
    let later : Option (Text × Text) = elim (split_bar s) [
      | none ↦ none
      | some (up, down) ↦ some (c ∷ up, down)
    ] in
    if c == b'|' then some ([], s) else later

abbrev pub is_word_char : ℕ → Bool
is_word_char c =
    leb b'0' c && leb c b'9'
    || leb b'A' c && leb c b'Z'
    || leb b'a' c && leb c b'z'
    || c == b'_'
    || c == b'-'

unfoldable pub contains_word : Text → Text → Bool
unfolding split_where
contains_word s needle =
    any (λ word. text_eq word needle) (split_where (λ c. not (is_word_char c)) s)

abbrev tool_of : Option (Text × Text) → Option Text
tool_of none = none
tool_of (some (upstream, downstream)) =
    elim (find (λ tool. contains_word upstream tool) network_tools) [
      | none ↦ none
      | some tool ↦
          if any (λ shell. contains_word downstream shell) shell_names then some tool else none
    ]

-- The test `contains('|')` before the split changes nothing: without a bar there is no split.
unfoldable pub shell_pipeline_tool : List Text → Option Text
unfolding join_with contains_word
shell_pipeline_tool argv = tool_of (split_bar (join_with (text " ") argv))
