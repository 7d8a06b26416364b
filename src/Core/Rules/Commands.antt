-- ===== src/Core/Rules/Commands.antt =====
-- core/src/rules.rs: the tests of ports, command lines and modes, and the shortening of subjects.
pub mod Piped
pub mod Interpreters
pub mod Downloaders
pub mod Caught
pub mod Shortening
use Prim.Native.Nat.{bit_and}
use mathlib.Core.List.{tail}
use mathlib.Core.Option
use install_scope.Common.{
  ℕ, zero, suc, ◌+◌, ◌-◌, ◌*◌, Bool, true, false, Option, none, some, List, [], ◌∷◌, ◌++◌, ◌==◌,
  ◌&&◌, ◌||◌, not, ltb, leb, any, length, take, get_elem?, if◌then◌else◌, u32_max, is_some_and,
}
use install_scope.Common.Text.{
  Text, text, text_eq, byte_len, split, split_where, starts_with, trim, trim_start_text,
  trim_start_matches,
}
use install_scope.Core.Catalog.{basename}

abbrev pub ordinary_ports : List ℕ
ordinary_ports = 80 ∷ 443 ∷ []

-- Port 0 is a resolver's probe and no destination.
unfoldable pub is_unusual_port : Option ℕ → Bool
is_unusual_port none = false
is_unusual_port (some zero) = false
is_unusual_port (some (suc n)) = not (any (λ ordinary. ordinary == suc n) ordinary_ports)

-- `Iterator::position`
unfoldable pub position : (Text → Bool) → List Text → Option ℕ
position p [] = none
position p (x ∷ xs) = let later = Option.map suc (position p xs) in if p x then some 0 else later

-- `argv.get(index + 1)` at the position of `-c`
abbrev pub argument_after : List Text → Option ℕ → Option Text
argument_after argv none = none
argument_after argv (some index) = get_elem? argv (suc index)

abbrev pub is_word_char : ℕ → Bool
is_word_char c =
    leb b'a' c && leb c b'z'
    || leb b'A' c && leb c b'Z'
    || leb b'0' c && leb c b'9'
    || c == b'_'
    || c == b'-'

unfoldable pub contains_word : Text → Text → Bool
unfolding split_where
contains_word s needle =
    any (λ word. text_eq word needle) (split_where (λ c. not (is_word_char c)) s)

abbrev pub shells : List Text
shells = text "sh" ∷ text "bash" ∷ text "dash" ∷ text "zsh" ∷ text "ksh" ∷ []

abbrev pub downloaders : List Text
downloaders = text "curl" ∷ text "wget" ∷ text "fetch" ∷ []

abbrev pub interpreters : List Text
interpreters =
    text "sh"
    ∷ text "bash"
    ∷ text "dash"
    ∷ text "zsh"
    ∷ text "python"
    ∷ text "python3"
    ∷ text "perl"
    ∷ text "ruby"
    ∷ text "node"
    ∷ []

-- What stands behind a pipe, without blanks and without `sudo `.
unfoldable pub piped_command : Text → Text
unfolding trim trim_start_text
piped_command segment = trim (trim_start_text (text "sudo ") (trim segment))

unfoldable pub runs_interpreter : Text → Bool
unfolding starts_with piped_command
runs_interpreter segment =
    any (λ interpreter. starts_with interpreter (piped_command segment)) interpreters

unfoldable pub pipes_into_interpreter : Text → Bool
unfolding split
pipes_into_interpreter script = any runs_interpreter (tail (split b'|' script))

unfoldable pub downloads : Text → Bool
downloads script = any (λ tool. contains_word script tool) downloaders

abbrev pub is_shell : List Text → Bool
is_shell [] = false
is_shell (program ∷ _) = any (λ shell. text_eq (basename program) shell) shells

unfoldable pub is_piped_script : Text → Bool
is_piped_script script = downloads script && pipes_into_interpreter script

unfoldable pub pipes_download_to_shell : List Text → Bool → Bool
pipes_download_to_shell argv truncated =
    if truncated || ltb (length argv) 3
    then false
    else if not (is_shell argv)
    then false
    else is_some_and (argument_after argv (position (λ arg. text_eq arg (text "-c")) argv))
        is_piped_script

-- `u32::from_str_radix(_, 8)` behind its optional sign: no digit, a wrong digit and a value that does
-- not fit are errors.
unfoldable pub octal_from : ℕ → Text → Option ℕ
octal_from acc [] = some acc
octal_from acc (d ∷ s) =
    let value = acc * 8 + (d - b'0') in
    let rest = octal_from value s in
    if leb b'0' d && leb d b'7' && leb value u32_max then rest else none

abbrev unsigned_octal : Text → Option ℕ
unsigned_octal [] = none
unsigned_octal (d ∷ s) = octal_from 0 (d ∷ s)

unfoldable pub parse_octal : Text → Option ℕ
unfolding octal_from
parse_octal [] = none
parse_octal (c ∷ s) = if c == b'+' then unsigned_octal s else unsigned_octal (c ∷ s)

abbrev or_zero : Text → Text
or_zero [] = text "0"
or_zero (d ∷ s) = d ∷ s

unfoldable pub mode_digits : Text → Text
unfolding trim trim_start_text
mode_digits mode = or_zero (trim_start_matches b'0' (trim_start_text (text "0o") (trim mode)))

unfoldable pub is_executable_mode : Option Text → Bool
unfolding parse_octal mode_digits
is_executable_mode none = false
is_executable_mode (some mode) =
    is_some_and (parse_octal (mode_digits mode)) (λ parsed. not (bit_and parsed 0o111 == 0))

abbrev pub subject_limit : ℕ
subject_limit = 200

-- The test counts bytes, the cut counts characters.
unfoldable pub truncate_subject : Text → Text
unfolding byte_len
truncate_subject s = if leb (byte_len s) subject_limit then s else take subject_limit s ++ text "…"
