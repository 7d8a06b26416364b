-- ===== src/Recorder/Results.antt =====
-- recorder/src/decode.rs: `parse_ret`, the tail of a trace line.
use mathlib.Core.Option.{map}
use mathlib.Core.List.{head?}
use install_scope.Common.{
  ℕ, suc, zero, ◌+◌, ◌^◌, ◌-◌, Bool, true, false, not, Option, none, some, [], ◌∷◌, ◌==◌, ◌||◌,
  ◌&&◌, leb, take, drop, if◌then◌else◌,
}
use install_scope.Common.Int.{ℤ, pos, negsuc}
use install_scope.Common.Text.{
  Text, text, text_eq, strip_prefix, split_where, trim_start_where, is_whitespace,
}
use install_scope.Recorder.Descriptors.{rfind_char, is_digit, number_of, negated}

pub record RetInfo : Type 0 where
  pub ok : Option Bool
  pub value : Option ℤ
  pub error : Option Text
  pub annotation : Option Text

abbrev no_ret : RetInfo
no_ret = record { ok = none; value = none; error = none; annotation = none }

abbrev trim_start : Text → Text
trim_start = trim_start_where is_whitespace

-- `parse::<i64>` of digits with an optional minus.
abbrev fitting : ℕ → (ℕ → ℤ) → Option ℕ → Option ℤ
fitting limit sign none = none
fitting limit sign (some n) = if leb n limit then some (sign n) else none

abbrev pub parse_i64 : Text → Option ℤ
parse_i64 [] = none
parse_i64 (c ∷ s) =
    if c == b'-'
    then fitting (2 ^ 63) negated (number_of s)
    else fitting (2 ^ 63 - 1) pos (number_of (c ∷ s))

abbrev leading_digits : Text → ℕ
leading_digits [] = 0
leading_digits (c ∷ s) = let later = suc (leading_digits s) in if is_digit c then later else 0

abbrev after_sign : ℕ → ℕ → ℕ
after_sign sign zero = 0
after_sign sign (suc n) = sign + suc n

abbrev digits_end : Text → ℕ
digits_end [] = 0
digits_end (c ∷ s) =
    if c == b'-' then after_sign 1 (leading_digits s) else after_sign 0 (leading_digits (c ∷ s))

abbrev value_and_remainder : Text → Option Text → Option ℤ × Text
value_and_remainder rest (some after) = (none, after)
value_and_remainder rest none =
    (parse_i64 (take (digits_end rest) rest), drop (digits_end rest) rest)

abbrev up_to_last : Text → Option ℕ → Option Text
up_to_last s none = none
up_to_last s (some i) = some (take i s)

abbrev annotation_in : Option Text → Option Text
annotation_in none = none
annotation_in (some r) = up_to_last r (rfind_char b'>' r)

abbrev behind_last : Text → Option ℕ → Text
behind_last s none = []
behind_last s (some i) = drop (i + 1) s

abbrev after_annotation : Option Text → Text → Text
after_annotation none remainder = remainder
after_annotation (some _) remainder = behind_last remainder (rfind_char b'>' remainder)

abbrev is_uppercase : ℕ → Bool
is_uppercase c = leb b'A' c && leb c b'Z'

abbrev is_symbol_char : ℕ → Bool
is_symbol_char c = is_uppercase c || is_digit c || c == b'_'

-- At least two characters, the first of them a letter.
abbrev symbol : Option Text → Option Text
symbol (some (c ∷ d ∷ s)) = if is_uppercase c then some (c ∷ d ∷ s) else none
symbol _ = none

abbrev error_in : Text → Option Text
error_in s = symbol (head? (split_where (λ c. not (is_symbol_char c)) (trim_start s)))

abbrev in_progress : Option Text → Bool
in_progress none = false
in_progress (some error) = text_eq error (text "EINPROGRESS")

abbrev succeeded : Option Text → ℤ → Bool
succeeded error (pos _) = true
succeeded error (negsuc _) = in_progress error

abbrev ret_of : Option ℤ × Text → RetInfo
ret_of (value, remainder) =
    let annotation = annotation_in (strip_prefix (text "<") remainder) in
    let error = error_in (after_annotation annotation remainder) in
    record {
      ok = map (succeeded error) value;
      value = value;
      error = error;
      annotation = annotation;
    }

abbrev behind_equals : Option Text → RetInfo
behind_equals none = no_ret
behind_equals (some rest) =
    let trimmed = trim_start rest in
    ret_of (value_and_remainder trimmed (strip_prefix (text "?") trimmed))

unfoldable pub parse_ret : Text → RetInfo
unfolding strip_prefix split_where trim_start_where
parse_ret tail = behind_equals (strip_prefix (text "=") (trim_start tail))
