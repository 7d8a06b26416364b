-- ===== src/Recorder/Strings/Quoting.antt =====
-- recorder/src/decode.rs: `read_quoted` reads a quoted rendering to its end.
use mathlib.Core.List.{append_assoc}
use install_scope.Common.{
  ℕ, suc, ◌+◌, ◌<◌, ◌≡◌, refl, ap, ◌∙◌, true, false, some, List, [], ◌∷◌, ◌++◌, ◌==◌, ltb, length,
  drop, map, All, All-append, arith, if◌then◌else◌, take-full_append, length-append,
}
use install_scope.Common.Text.{Text, text, starts_with}
use install_scope.Common.Text.Utf8.{as_bytes_ascii}
use install_scope.Recorder.Strings.{
  backslash, quote_mark, closing, decode_from, decode_escaped, read_quoted,
}
use install_scope.Recorder.Strings.Escapes.{
  Renders, IsEscape-IsAscii, nothing, plain, named, octal, hexadecimal, digit_char,
  decode_from-Renders,
}

abbrev IsAscii : Text → Type 0
IsAscii = All (λ c. ltb c 0x80 ≡ true)

digit_lem :
    (d : ℕ)
    → d < 16
    → (ltb (digit_char d) 0x80 ≡ true)
      × ((digit_char d == backslash) ≡ false)
      × ((digit_char d == quote_mark) ≡ false)
digit_lem d h = ground arith

digits-IsAscii : (ds : List ℕ) → All (λ d. d < 8) ds → IsAscii (map digit_char ds)
digits-IsAscii [] h = tt
digits-IsAscii (d ∷ ds) (small, h) = ((digit_lem d (omega (arith, small))).0, digits-IsAscii ds h)

Renders-IsAscii : {bytes : List ℕ} {s : Text} → Renders bytes s → IsAscii s
Renders-IsAscii nothing = tt
Renders-IsAscii (plain b small _ _ r) = (small, Renders-IsAscii r)
Renders-IsAscii (named letter b h r) = (refl, (IsEscape-IsAscii h, Renders-IsAscii r))
Renders-IsAscii (octal {s = s} d ds h _ _ r) =
    (refl, All-append _ (map digit_char (d ∷ ds)) s (digits-IsAscii (d ∷ ds) h) (Renders-IsAscii r))
Renders-IsAscii (hexadecimal high low h l r) =
    (refl, (refl, ((digit_lem high h).0, ((digit_lem low l).0, Renders-IsAscii r))))

-- A rendering is decoded to its bytes.
decode_escaped-Renders : {bytes : List ℕ} {s : Text} → Renders bytes s → decode_escaped s ≡ bytes
unfolding decode_escaped
decode_escaped-Renders {s = s} r =
    ap (decode_from 0) (as_bytes_ascii s (Renders-IsAscii r)) ∙ decode_from-Renders r

closing_plain :
    (c : ℕ) (s : Text) (n : ℕ)
    → (c == backslash) ≡ false
    → (c == quote_mark) ≡ false
    → closing false s ≡ some n
    → closing false (c ∷ s) ≡ some (suc n)
unfolding closing
closing_plain c s n h k e = rw (h, k, e) refl

closing_escape :
    (c : ℕ) (s : Text) (n : ℕ)
    → closing false s ≡ some n
    → closing false (backslash ∷ c ∷ s) ≡ some (2 + n)
unfolding closing
closing_escape c s n e = rw (e, closing) (ap some (omega arith))

closing_digits :
    (ds : List ℕ) (s : Text) (n : ℕ)
    → All (λ d. d < 8) ds
    → closing false s ≡ some n
    → closing false (map digit_char ds ++ s) ≡ some (length (map digit_char ds) + n)
closing_digits [] s n h e = e ∙ ap some (omega arith)
closing_digits (d ∷ ds) s n (small, h) e =
    let (_, no_escape, no_end) = digit_lem d (omega (arith, small)) in
    closing_plain (digit_char d) (map digit_char ds ++ s) (length (map digit_char ds) + n) no_escape
      no_end (closing_digits ds s n h e)
    ∙ ap some (omega arith)

closing_end : (rest : Text) → closing false (quote_mark ∷ rest) ≡ some 0
unfolding closing
closing_end rest = refl

Renders-closing :
    {bytes : List ℕ} {s : Text} (rest : Text)
    → Renders bytes s
    → closing false (s ++ quote_mark ∷ rest) ≡ some (length s)
Renders-closing rest nothing = closing_end rest
Renders-closing rest (plain {s = s} b _ h k r) =
    closing_plain b (s ++ quote_mark ∷ rest) (length s) h k (Renders-closing rest r)
Renders-closing rest (named {s = s} letter b _ r) =
    closing_escape letter (s ++ quote_mark ∷ rest) (length s) (Renders-closing rest r)
    ∙ ap some (omega arith)
Renders-closing rest (octal {s = s} d ds (small, h) _ _ r) =
    let t = s ++ quote_mark ∷ rest in
    ap (λ u. closing false (backslash ∷ digit_char d ∷ u))
      (append_assoc (map digit_char ds) s (quote_mark ∷ rest))
    ∙ closing_escape (digit_char d) (map digit_char ds ++ t) (length (map digit_char ds) + length s)
        (closing_digits ds t (length s) h (Renders-closing rest r))
    ∙ ap some (omega (arith, length-append (map digit_char ds) s))
Renders-closing rest (hexadecimal {s = s} high low h l r) =
    let t = s ++ quote_mark ∷ rest in
    let (_, low_plain, low_inside) = digit_lem low l in
    let (_, high_plain, high_inside) = digit_lem high h in
    closing_escape b'x' (digit_char high ∷ digit_char low ∷ t) (2 + length s) (
      closing_plain (digit_char high) (digit_char low ∷ t) (suc (length s)) high_plain high_inside
        (closing_plain (digit_char low) t (length s) low_plain low_inside (Renders-closing rest r))
      ∙ ap some (omega arith))
    ∙ ap some (omega arith)

drop_past : (s rest : Text) → drop (length s + 1) (s ++ quote_mark ∷ rest) ≡ rest
drop_past [] rest = refl
drop_past (c ∷ s) rest =
    let next : length (c ∷ s) + 1 ≡ suc (length s + 1) = omega arith in
    ap (λ n. drop n (c ∷ s ++ quote_mark ∷ rest)) next ∙ drop_past s rest

-- For any rendering of bytes as text: what stands between quotes is read as these bytes, up to the
-- closing quote and past the dots of a cut string; it counts as cut exactly when they follow.
pub read_quoted-Renders :
    (bytes : List ℕ) (s rest : Text)
    → Renders bytes s
    → read_quoted (quote_mark ∷ s ++ quote_mark ∷ rest)
      ≡ some (record {
        bytes = bytes;
        end = length s + 2 + (if starts_with (text "...") rest then 3 else 0);
        truncated = starts_with (text "...") rest;
      })
unfolding read_quoted
read_quoted-Renders bytes s rest r =
    rw
      (
        Renders-closing rest r,
        drop_past s rest,
        take-full_append s (quote_mark ∷ rest),
        decode_escaped-Renders r,
      )
      refl
