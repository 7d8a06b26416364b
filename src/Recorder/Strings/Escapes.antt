-- ===== src/Recorder/Strings/Escapes.antt =====
-- recorder/src/decode.rs: `decode_escaped` undoes every escaping that its documentation names.
use install_scope.Common.{
  ℕ, suc, zero, ◌+◌, ◌*◌, ◌-◌, ◌≤◌, ◌<◌, ◌≡◌, refl, ap, ap₂, ◌∙◌, ◌⊎◌, inl, inr, true, false, none,
  some, List, [], ◌∷◌, ◌++◌, ◌==◌, leb, ltb, ◌&&◌, length, map, All, arith, if◌then◌else◌,
}
use install_scope.Common.Text.{Text}
use install_scope.Recorder.Strings.{
  backslash, quote_mark, named_escapes, named_in, to_digit, read_digits, escape_at, round_at,
  decode_from,
}

abbrev pub digit_char : ℕ → ℕ
digit_char d = if ltb d 10 then d + b'0' else d - 10 + b'a'

-- The number that digits write, behind a number that others wrote.
abbrev pub number_from : ℕ → ℕ → List ℕ → ℕ
number_from radix value [] = value
number_from radix value (d ∷ ds) = number_from radix (value * radix + d) ds

-- No more octal digit follows.
abbrev pub StopsOctal : Text → Type 0
StopsOctal [] = Unit
StopsOctal (c ∷ _) = to_digit 8 c ≡ none

-- The escapes of C of one letter.
pub data IsEscape : ℕ → ℕ → Type 0 where
  line_feed : IsEscape b'n' 0x0a
  tab : IsEscape b't' 0x09
  carriage_return : IsEscape b'r' 0x0d
  form_feed : IsEscape b'f' 0x0c
  vertical_tab : IsEscape b'v' 0x0b
  backspace : IsEscape b'b' 0x08
  alert : IsEscape b'a' 0x07
  itself : IsEscape backslash backslash
  quotation : IsEscape quote_mark quote_mark

pub IsEscape-IsAscii : {letter b : ℕ} → IsEscape letter b → ltb letter 0x80 ≡ true
IsEscape-IsAscii line_feed = refl
IsEscape-IsAscii tab = refl
IsEscape-IsAscii carriage_return = refl
IsEscape-IsAscii form_feed = refl
IsEscape-IsAscii vertical_tab = refl
IsEscape-IsAscii backspace = refl
IsEscape-IsAscii alert = refl
IsEscape-IsAscii itself = refl
IsEscape-IsAscii quotation = refl

IsEscape-named_in : {letter b : ℕ} → IsEscape letter b → named_in letter named_escapes ≡ some b
IsEscape-named_in line_feed = refl
IsEscape-named_in tab = refl
IsEscape-named_in carriage_return = refl
IsEscape-named_in form_feed = refl
IsEscape-named_in vertical_tab = refl
IsEscape-named_in backspace = refl
IsEscape-named_in alert = refl
IsEscape-named_in itself = refl
IsEscape-named_in quotation = refl

-- A text that stands for bytes: ASCII characters for themselves, but for the backslash and the quote,
-- and escapes of one letter, of one to three octal digits, and of two hexadecimal ones.
pub data Renders : List ℕ → Text → Type 0 where
  nothing : Renders [] []
  plain :
      {bytes : List ℕ} {s : Text} (b : ℕ)
      → ltb b 0x80 ≡ true
      → (b == backslash) ≡ false
      → (b == quote_mark) ≡ false
      → Renders bytes s
      → Renders (b ∷ bytes) (b ∷ s)
  named :
      {bytes : List ℕ} {s : Text} (letter b : ℕ)
      → IsEscape letter b
      → Renders bytes s
      → Renders (b ∷ bytes) (backslash ∷ letter ∷ s)
  octal :
      {bytes : List ℕ} {s : Text} (d : ℕ) (ds : List ℕ)
      → All (λ x. x < 8) (d ∷ ds)
      → number_from 8 0 (d ∷ ds) < 256
      → (length ds ≡ 2) ⊎ ((length ds < 2) × StopsOctal s)
      → Renders bytes s
      → Renders (number_from 8 0 (d ∷ ds) ∷ bytes) (backslash ∷ map digit_char (d ∷ ds) ++ s)
  hexadecimal :
      {bytes : List ℕ} {s : Text} (high low : ℕ)
      → high < 16
      → low < 16
      → Renders bytes s
      → Renders
          ((high * 16 + low) ∷ bytes)
          (backslash ∷ b'x' ∷ digit_char high ∷ digit_char low ∷ s)

to_digit_lem : (radix d : ℕ) → d < radix → radix ≤ 16 → to_digit radix (digit_char d) ≡ some d
to_digit_lem radix d h k = ground arith

read_octal :
    (ds : List ℕ) (left value digits : ℕ) (s : Text)
    → All (λ x. x < 8) ds
    → (length ds ≡ left) ⊎ ((length ds < left) × StopsOctal s)
    → read_digits 8 left value digits (map digit_char ds ++ s)
      ≡ (number_from 8 value ds, digits + length ds)
unfolding read_digits
read_octal [] zero value digits s h k = ground arith
read_octal [] (suc left) value digits [] h k = ground arith
read_octal [] (suc left) value digits (c ∷ s) h (inl n) = absurd (omega (arith, n))
read_octal [] (suc left) value digits (c ∷ s) h (inr (_, stops)) =
    rw (stops, read_digits) (ground arith)
read_octal (d ∷ ds) zero value digits s h k = absurd (ground arith)
read_octal (d ∷ ds) (suc left) value digits s (small, h) k =
    rw (to_digit_lem 8 d small (omega arith), read_digits)
      (read_octal ds left (value * 8 + d) (digits + 1) s h (ground arith)
        ∙ ap (λ n. (number_from 8 value (d ∷ ds), n)) (omega arith))

decode_skip : (before s : List ℕ) → decode_from (length before) (before ++ s) ≡ decode_from 0 s
unfolding decode_from
decode_skip [] s = refl
decode_skip (b ∷ before) s = decode_skip before s

round_plain :
    (b : ℕ) (s : List ℕ) → (b == backslash) ≡ false → decode_from 0 (b ∷ s) ≡ b ∷ decode_from 0 s
unfolding decode_from round_at
round_plain b s h = rw (h, round_at) refl

-- A round that pushes a byte and goes over an escape.
round_escape :
    (b : ℕ) (piece s : List ℕ)
    → escape_at (piece ++ s) ≡ (b, 1 + length piece)
    → decode_from 0 (backslash ∷ piece ++ s) ≡ b ∷ decode_from 0 s
unfolding decode_from round_at
round_escape b piece s h =
    rw (h, round_at)
      (let back : 1 + length piece - 1 ≡ length piece = omega arith in
        ap (λ n. b ∷ decode_from n (piece ++ s)) back ∙ ap (λ t. b ∷ t) (decode_skip piece s))

octal_first :
    (d : ℕ)
    → d < 8
    → (named_in (digit_char d) named_escapes ≡ none)
      × ((digit_char d == b'x') ≡ false)
      × ((leb b'0' (digit_char d) && leb (digit_char d) b'7') ≡ true)
octal_first d h = ground arith

and_one_digit : {P : Type 0} (n : ℕ) → (n ≡ 2) ⊎ ((n < 2) × P) → (suc n ≡ 3) ⊎ ((suc n < 3) × P)
and_one_digit n (inl e) = inl (ap suc e)
and_one_digit n (inr (less, p)) = inr (omega (arith, less), p)

length-map : (ds : List ℕ) → length (map digit_char ds) ≡ length ds
length-map [] = refl
length-map (d ∷ ds) = ap suc (length-map ds)

escape_octal :
    (d : ℕ) (ds : List ℕ) (s : Text)
    → All (λ x. x < 8) (d ∷ ds)
    → number_from 8 0 (d ∷ ds) < 256
    → (length ds ≡ 2) ⊎ ((length ds < 2) × StopsOctal s)
    → escape_at (map digit_char (d ∷ ds) ++ s)
      ≡ (number_from 8 0 (d ∷ ds), 1 + length (map digit_char (d ∷ ds)))
unfolding escape_at
escape_octal d ds s h fits stops =
    let read = read_octal (d ∷ ds) 3 0 0 s h (and_one_digit (length ds) stops) in
    let (unnamed, no_x, is_octal) = octal_first d h.0 in
    rw (unnamed, no_x, is_octal, read, length-map (d ∷ ds))
      (ap₂ (λ v n. (v, 1 + n)) (omega (arith, fits)) (omega arith))

read_hexadecimal :
    (high low : ℕ) (s : Text)
    → high < 16
    → low < 16
    → read_digits 16 2 0 0 (digit_char high ∷ digit_char low ∷ s) ≡ (high * 16 + low, 2)
unfolding read_digits
read_hexadecimal high low s h l =
    rw (to_digit_lem 16 high h (omega arith), read_digits)
      (rw (to_digit_lem 16 low l (omega arith), read_digits) (ap (λ n. (n, 2)) (omega arith)))

escape_hexadecimal :
    (high low : ℕ) (s : Text)
    → high < 16
    → low < 16
    → escape_at (b'x' ∷ digit_char high ∷ digit_char low ∷ s) ≡ (high * 16 + low, 4)
unfolding escape_at
escape_hexadecimal high low s h l =
    rw (read_hexadecimal high low s h l, escape_at) (ap (λ n. (n, 4)) (omega arith))

escape_named :
    (letter b : ℕ) (s : Text)
    → named_in letter named_escapes ≡ some b
    → escape_at (letter ∷ s) ≡ (b, 2)
unfolding escape_at
escape_named letter b s h = rw (h, escape_at) refl

-- A text that stands for bytes is decoded to them.
pub decode_from-Renders : {bytes : List ℕ} {s : Text} → Renders bytes s → decode_from 0 s ≡ bytes
unfolding decode_from
decode_from-Renders nothing = refl
decode_from-Renders (plain {s = s} b small h k r) =
    round_plain b s h ∙ ap (λ t. b ∷ t) (decode_from-Renders r)
decode_from-Renders (named {s = s} letter b h r) =
    round_escape b (letter ∷ []) s (escape_named letter b s (IsEscape-named_in h))
    ∙ ap (λ t. b ∷ t) (decode_from-Renders r)
decode_from-Renders (octal {s = s} d ds h fits stops r) =
    round_escape (number_from 8 0 (d ∷ ds)) (map digit_char (d ∷ ds)) s
      (escape_octal d ds s h fits stops)
    ∙ ap (λ t. number_from 8 0 (d ∷ ds) ∷ t) (decode_from-Renders r)
decode_from-Renders (hexadecimal {s = s} high low h l r) =
    round_escape (high * 16 + low) (b'x' ∷ digit_char high ∷ digit_char low ∷ []) s
      (escape_hexadecimal high low s h l)
    ∙ ap (λ t. (high * 16 + low) ∷ t) (decode_from-Renders r)
