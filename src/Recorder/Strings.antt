-- ===== src/Recorder/Strings.antt =====
-- recorder/src/decode.rs: the quoted strings of a trace and the argument lists that hold them. A position
-- in a text is what follows there, and a later one the number of characters up to it.
pub mod Escapes
pub mod Quoting
use mathlib.Core.Option.{map}
use install_scope.Common.{
  ℕ, suc, zero, ◌+◌, ◌-◌, ◌*◌, ◌%◌, Bool, true, false, not, Option, none, some, List, [], ◌∷◌, ◌++◌,
  ◌==◌, ◌||◌, ◌&&◌, leb, ltb, length, take, drop, if◌then◌else◌,
}
use install_scope.Common.Int.{ℤ, pos, negsuc}
use install_scope.Common.Text.{Text, text, starts_with, trim}
use install_scope.Common.Text.Utf8.{as_bytes, from_utf8_lossy}

abbrev pub backslash : ℕ
backslash = 92

abbrev pub quote_mark : ℕ
quote_mark = 34

-- The escapes of one letter and their bytes, in the order of the source.
abbrev pub named_escapes : List (ℕ × ℕ)
named_escapes =
    (b'n', 10)
    ∷ (b't', 9)
    ∷ (b'r', 13)
    ∷ (b'f', 12)
    ∷ (b'v', 11)
    ∷ (b'b', 8)
    ∷ (b'a', 7)
    ∷ (backslash, backslash)
    ∷ (quote_mark, quote_mark)
    ∷ []

abbrev pub named_in : ℕ → List (ℕ × ℕ) → Option ℕ
named_in c [] = none
named_in c ((letter, byte) ∷ escapes) = if c == letter then some byte else named_in c escapes

abbrev below : ℕ → ℕ → Option ℕ
below radix d = if ltb d radix then some d else none

-- `char::to_digit`
abbrev pub to_digit : ℕ → ℕ → Option ℕ
to_digit radix c =
    if leb b'0' c && leb c b'9'
    then below radix (c - b'0')
    else if leb b'a' c && leb c b'z'
    then below radix (c - b'a' + 10)
    else if leb b'A' c && leb c b'Z'
    then below radix (c - b'A' + 10)
    else none

-- At most `left` more digits: the value and the number of digits.
unfoldable pub read_digits : ℕ → ℕ → ℕ → ℕ → List ℕ → ℕ × ℕ
read_digits radix zero value digits s = (value, digits)
read_digits radix (suc left) value digits [] = (value, digits)
read_digits radix (suc left) value digits (c ∷ s) = elim (to_digit radix c) [
  | none ↦ (value, digits)
  | some d ↦ read_digits radix left (value * radix + d) (digits + 1) s
]

-- A byte to push, and by how much the index grows.
abbrev hex_escape : ℕ × ℕ → ℕ × ℕ
hex_escape (value, zero) = (backslash, 1)
hex_escape (value, suc digits) = (value % 256, 2 + suc digits)

abbrev octal_escape : ℕ × ℕ → ℕ × ℕ
octal_escape (value, digits) = (value % 256, 1 + digits)

abbrev numeric_escape : ℕ → List ℕ → ℕ × ℕ
numeric_escape next s =
    if next == b'x'
    then hex_escape (read_digits 16 2 0 0 s)
    else if leb b'0' next && leb next b'7'
    then octal_escape (read_digits 8 3 0 0 (next ∷ s))
    else (backslash, 1)

abbrev named_or : Option ℕ → ℕ × ℕ → ℕ × ℕ
named_or none other = other
named_or (some byte) other = (byte, 2)

-- Behind a backslash.
unfoldable pub escape_at : List ℕ → ℕ × ℕ
unfolding read_digits
escape_at [] = (backslash, 1)
escape_at (next ∷ s) = named_or (named_in next named_escapes) (numeric_escape next s)

-- One round of the loop.
unfoldable pub round_at : ℕ → List ℕ → ℕ × ℕ
round_at b s = if b == backslash then escape_at s else (b, 1)

-- The loop, with the number of bytes before the index.
unfoldable pub decode_from : ℕ → List ℕ → List ℕ
unfolding round_at
decode_from skip [] = []
decode_from (suc skip) (b ∷ s) = decode_from skip s
decode_from zero (b ∷ s) = let (byte, advance) = round_at b s in byte ∷ decode_from (advance - 1) s

unfoldable pub decode_escaped : Text → List ℕ
unfolding decode_from as_bytes
decode_escaped raw = decode_from 0 (as_bytes raw)

pub record Quoted : Type 0 where
  pub bytes : List ℕ
  pub end : ℕ
  pub truncated : Bool

-- How much text there is before the closing quote.
unfoldable pub closing : Bool → Text → Option ℕ
closing escaped [] = none
closing true (c ∷ s) = map suc (closing false s)
closing false (c ∷ s) =
    let later = map suc (closing (c == backslash) s) in if c == quote_mark then some 0 else later

abbrev quoted_up_to : Text → Option ℕ → Option Quoted
quoted_up_to s none = none
quoted_up_to s (some n) =
    let cut = starts_with (text "...") (drop (n + 1) s) in
    some (record {
      bytes = decode_escaped (take n s);
      end = n + 2 + (if cut then 3 else 0);
      truncated = cut;
    })

unfoldable pub read_quoted : Text → Option Quoted
unfolding closing decode_escaped starts_with
read_quoted [] = none
read_quoted (c ∷ s) = if c == quote_mark then quoted_up_to s (closing false s) else none

abbrev pub lossy_path : Option Quoted → Option Text
lossy_path none = none
lossy_path (some q) = some (from_utf8_lossy q.bytes)

unfoldable pub quoted_to_path : Text → Option Text
unfolding read_quoted from_utf8_lossy
quoted_to_path arg = lossy_path (read_quoted arg)
