-- ===== src/Recorder/Paths.antt =====
-- recorder/src/fdtable.rs: `normalize` and `join`, the lexical treatment of paths.
pub mod Stacks
pub mod Normal
pub mod Reduction
use mathlib.Core.List.{reverse}
use install_scope.Common.{Bool, true, false, List, [], ◌∷◌, ◌++◌, ◌||◌, if◌then◌else◌}
use install_scope.Common.Text.{
  Text, text, text_eq, starts_with, split, join_with, trim_end_matches, trim_end_where,
}

-- `..`: the last component goes, unless it is itself a `..` that could not be resolved; at the start
-- of a relative path it stays. The stack has its last component first.
abbrev pub step_up : Bool → List Text → List Text
step_up true [] = []
step_up false [] = text ".." ∷ []
step_up absolute (last ∷ stack) =
    if text_eq last (text "..") then text ".." ∷ last ∷ stack else stack

-- One component: the empty one and `.` say nothing.
abbrev pub step : Bool → List Text → Text → List Text
step absolute stack part =
    if text_eq part [] || text_eq part (text ".")
    then stack
    else if text_eq part (text "..")
    then step_up absolute stack
    else part ∷ stack

abbrev pub walk : Bool → List Text → List Text → List Text
walk absolute stack [] = stack
walk absolute stack (part ∷ parts) = walk absolute (step absolute stack part) parts

abbrev pub or_dot : Text → Text
or_dot [] = text "."
or_dot (c ∷ joined) = c ∷ joined

abbrev pub rendered : Bool → Text → Text
rendered true joined = b'/' ∷ joined
rendered false joined = or_dot joined

unfoldable pub normalize : Text → Text
normalize path =
    let absolute = starts_with (text "/") path in
    let stack = walk absolute [] (split b'/' path) in
    rendered absolute (join_with (text "/") (reverse stack))

-- A relative path on a base directory; an absolute one stands for itself.
unfoldable pub join : Text → Text → Text
join base relative =
    if starts_with (text "/") relative
    then normalize relative
    else normalize (trim_end_matches b'/' base ++ text "/" ++ relative)
