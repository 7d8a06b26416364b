-- ===== src/Recorder/Arguments.antt =====
-- recorder/src/decode.rs: `split_args`, the arguments of a traced call.
pub mod Splitting
use install_scope.Common.{
  ℕ, suc, zero, ◌-◌, ◌^◌, Bool, true, false, not, Option, none, some, List, [], ◌∷◌, ◌++◌, ◌==◌,
  ◌||◌, ◌&&◌, take, if◌then◌else◌,
}
use install_scope.Common.Int.{ℤ, pos, negsuc}
use install_scope.Common.Text.{Text, trim}
use install_scope.Recorder.Strings.{quote_mark, Quoted, read_quoted}

-- The depth is an `i32`: a stray bracket takes it below zero, and it wraps at both ends.
abbrev pub i32_max : ℕ
i32_max = 2 ^ 31 - 1

abbrev pub deeper : ℤ → ℤ
deeper (pos n) = if n == i32_max then negsuc i32_max else pos (suc n)
deeper (negsuc zero) = pos 0
deeper (negsuc (suc n)) = negsuc n

abbrev pub shallower : ℤ → ℤ
shallower (pos zero) = negsuc 0
shallower (pos (suc n)) = pos n
shallower (negsuc n) = if n == i32_max then pos i32_max else negsuc (suc n)

abbrev at_top : ℤ → Bool
at_top (pos zero) = true
at_top _ = false

-- The arms of the match on a character.
pub data Arm : Type 0 where
  quote : Arm
  opening : Arm
  closing_bracket : Arm
  comma : Arm
  other : Arm

unfoldable pub arm_of : ℤ → ℕ → Arm
arm_of depth c =
    if c == quote_mark
    then quote
    else if c == b'(' || c == b'[' || c == b'{'
    then opening
    else if c == b')' || c == b']' || c == b'}'
    then closing_bracket
    else if c == b',' && at_top depth
    then comma
    else other

abbrev pub visible_part : Text → List Text
visible_part [] = []
visible_part (c ∷ s) = (c ∷ s) ∷ []

abbrev pub last_part : Text → List Text
last_part current = visible_part (trim current)

-- The loop, with the number of characters before the index.
unfoldable pub split_from : ℕ → ℤ → Text → Text → List Text
unfolding read_quoted
split_from skip depth current [] = last_part current
split_from (suc skip) depth current (c ∷ s) = split_from skip depth current s
split_from zero depth current (c ∷ s) = elim (arm_of depth c) [
  | quote ↦ elim (read_quoted (c ∷ s)) [
    | some q ↦ split_from (q.end - 1) depth (current ++ take q.end (c ∷ s)) s
    | none ↦ last_part (current ++ (c ∷ s))
  ]
  | opening ↦ split_from 0 (deeper depth) (current ++ c ∷ []) s
  | closing_bracket ↦ split_from 0 (shallower depth) (current ++ c ∷ []) s
  | comma ↦ trim current ∷ split_from 0 depth [] s
  | other ↦ split_from 0 depth (current ++ c ∷ []) s
]

unfoldable pub split_args : Text → List Text
unfolding split_from
split_args s = split_from 0 (pos 0) [] s
