-- ===== src/Recorder/Descriptors.antt =====
-- recorder/src/decode.rs: the two readings of a descriptor argument, `3</abs/path>` or plain `3`.
use mathlib.Core.List.{head?}
use mathlib.Core.Option.{map}
use install_scope.Common.{
  ℕ, zero, suc, ◌+◌, ◌-◌, ◌*◌, Bool, true, false, Option, none, some, [], ◌∷◌, ◌==◌, ◌&&◌, leb, all,
  take, drop, if◌then◌else◌, unwrap_or,
}
use install_scope.Common.Int.{ℤ, pos, negsuc}
use install_scope.Common.Text.{Text, text, strip_prefix, split, trim}

-- `str::find(c)` and `str::rfind(c)`
abbrev pub find_char : ℕ → Text → Option ℕ
find_char c [] = none
find_char c (x ∷ s) = let later = map suc (find_char c s) in if x == c then some 0 else later

abbrev or_here : Bool → Option ℕ → Option ℕ
or_here here (some i) = some (suc i)
or_here true none = some 0
or_here false none = none

abbrev pub rfind_char : ℕ → Text → Option ℕ
rfind_char c [] = none
rfind_char c (x ∷ s) = or_here (x == c) (rfind_char c s)

abbrev pub is_digit : ℕ → Bool
is_digit c = leb b'0' c && leb c b'9'

abbrev is_number : Text → Bool
is_number [] = false
is_number (c ∷ s) = all is_digit (c ∷ s)

-- The text between the first `<` and the last `>`, behind a number.
abbrev between : Text → ℕ → ℕ → Option Text
between arg start end =
    let digits = take start arg in
    if leb end (start + 1)
    then none
    else if is_number (unwrap_or (strip_prefix (text "-") digits) digits)
    then some (take (end - (start + 1)) (drop (start + 1) arg))
    else none

abbrev between_marks : Text → Option ℕ → Option ℕ → Option Text
between_marks arg none _ = none
between_marks arg (some start) none = none
between_marks arg (some start) (some end) = between arg start end

unfoldable pub fd_annotation : Text → Option Text
unfolding strip_prefix
fd_annotation arg = between_marks arg (find_char b'<' arg) (rfind_char b'>' arg)

-- `parse::<i32>`: an optional sign, digits, and a value that fits.
abbrev digits_value : ℕ → Text → Option ℕ
digits_value acc [] = some acc
digits_value acc (d ∷ s) =
    let rest = digits_value (acc * 10 + (d - b'0')) s in if is_digit d then rest else none

abbrev pub number_of : Text → Option ℕ
number_of [] = none
number_of (d ∷ s) = digits_value 0 (d ∷ s)

abbrev pub negated : ℕ → ℤ
negated zero = pos 0
negated (suc n) = negsuc n

abbrev positive_i32 : Option ℕ → Option ℤ
positive_i32 none = none
positive_i32 (some n) = if leb n 2147483647 then some (pos n) else none

abbrev negative_i32 : Option ℕ → Option ℤ
negative_i32 none = none
negative_i32 (some n) = if leb n 2147483648 then some (negated n) else none

unfoldable pub parse_i32 : Text → Option ℤ
parse_i32 [] = none
parse_i32 (c ∷ s) =
    if c == b'-'
    then negative_i32 (number_of s)
    else if c == b'+'
    then positive_i32 (number_of s)
    else positive_i32 (number_of (c ∷ s))

abbrev parse_head : Option Text → Option ℤ
parse_head none = none
parse_head (some head) = parse_i32 (trim head)

unfoldable pub fd_number : Text → Option ℤ
unfolding split trim parse_i32
fd_number arg = parse_head (head? (split b'<' arg))
