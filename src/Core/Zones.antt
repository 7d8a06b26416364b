-- ===== src/Core/Zones.antt =====
-- core/src/zones.rs: placing an observed path inside or outside the directories that a recording
-- declares. `Inside`, the critical `Outside`, and the two answers that no rule may score.
pub mod Within
pub mod Candidates
pub mod Placing
use install_scope.Common.{
  Bool, true, false, Option, none, some, List, [], ◌∷◌, ◌||◌, not, any, if◌then◌else◌, is_some_and,
}
use install_scope.Common.Text.{Text, text, text_eq, starts_with, strip_prefix, trim_end_matches}
use install_scope.Common.Text.{trim_end_where}
use install_scope.Core.Events.{TracedPath, Zones, is_resolved}

pub data Zone : Type 0 where
  project cache home tmp declared : Zone

unfoldable pub zone_name : Zone → Text
zone_name project = text "project"
zone_name cache = text "cache"
zone_name home = text "home"
zone_name tmp = text "tmp"
zone_name declared = text "declared"

pub data Placement : Type 0 where
  inside : Zone → Placement
  outside unresolvable runtime : Placement

unfoldable pub is_scorable_as_outside : Placement → Bool
is_scorable_as_outside outside = true
is_scorable_as_outside _ = false

unfoldable pub is_unresolvable : Placement → Bool
is_unresolvable unresolvable = true
is_unresolvable _ = false

abbrev pub runtime_prefixes : List Text
runtime_prefixes =
    text "/proc/" ∷ text "/sys/" ∷ text "/dev/" ∷ text "/run/" ∷ text "/var/run/" ∷ []

abbrev pub runtime_exact : List Text
runtime_exact = text "/proc" ∷ text "/sys" ∷ text "/dev" ∷ text "/run" ∷ text "/var/run" ∷ []

-- A path under a prefix, at a boundary between components.
abbrev is_at_boundary : Text → Text → Bool
is_at_boundary path [] = false
is_at_boundary path (c ∷ trimmed) =
    text_eq path (c ∷ trimmed)
    || is_some_and (strip_prefix (c ∷ trimmed) path) (λ rest. starts_with (text "/") rest)

abbrev within_prefix : Text → Text → Bool
within_prefix path [] = false
within_prefix path (c ∷ prefix) = is_at_boundary path (trim_end_matches b'/' (c ∷ prefix))

unfoldable pub within : Text → Text → Bool
unfolding text_eq strip_prefix starts_with trim_end_where
within path prefix = within_prefix path prefix

unfoldable pub is_runtime : Text → Bool
unfolding text_eq starts_with
is_runtime path =
    any (λ exact. text_eq exact path) runtime_exact
    || any (λ prefix. starts_with prefix path) runtime_prefixes

-- The candidates in the order in which they are tried; the first that holds the path wins.
abbrev pub candidates : Zones → List (Option Text × Zone)
candidates z = (z.project, project) ∷ (z.cache, cache) ∷ (z.home, home) ∷ (z.tmp, tmp) ∷ []

unfoldable pub first_zone : Text → List (Option Text × Zone) → Option Zone
first_zone path [] = none
first_zone path ((none, zone) ∷ rest) = first_zone path rest
first_zone path ((some prefix, zone) ∷ rest) =
    let later = first_zone path rest in if within path prefix then some zone else later

abbrev place_in : Option Zone → Bool → Placement
place_in (some zone) extra = inside zone
place_in none true = inside declared
place_in none false = outside

unfoldable pub placement_of : TracedPath → Zones → Placement
placement_of p zones =
    if not (is_resolved p)
    then unresolvable
    else if not (starts_with (text "/") p.path)
    then unresolvable
    else if is_runtime p.path
    then runtime
    else place_in (first_zone p.path (candidates zones))
        (any (λ prefix. within p.path prefix) zones.extra)
