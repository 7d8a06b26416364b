-- ===== src/Recorder/Arguments/Splitting.antt =====
-- recorder/src/decode.rs: `split_args` splits at the commas outside of quotes and brackets.
use mathlib.Core.List.{append_assoc, append-nil}
use install_scope.Common.{
  ℕ, suc, ◌+◌, ◌^◌, ◌<◌, ◌≢◌, Any, ◌≡◌, refl, sym, ap, ap₂, ◌∙◌, false, some, List, [], ◌∷◌, ◌++◌,
  ◌==◌, length, take, map, All, arith, if◌then◌else◌, take-full_append, length-append,
}
use install_scope.Common.Int.{ℤ, pos}
use install_scope.Common.Text.{Text, text, trim, starts_with, strip_prefix}
use install_scope.Recorder.Strings.{quote_mark, Quoted, read_quoted}
use install_scope.Recorder.Strings.Escapes.{Renders}
use install_scope.Recorder.Strings.Quoting.{read_quoted-Renders}
use install_scope.Recorder.Arguments.{
  quote, opening, closing_bracket, comma, other, arm_of, last_part, deeper, split_from, split_args,
}

abbrev pub NoDot : Text → Type 0
NoDot [] = Unit
NoDot (c ∷ _) = (c == b'.') ≡ false

-- One of some characters, and none of them.
abbrev pub IsOneOf : List ℕ → ℕ → Type 0
IsOneOf chars c = Any (λ d. c ≡ d) chars

abbrev pub IsNoneOf : List ℕ → ℕ → Type 0
IsNoneOf chars c = All (λ d. c ≢ d) chars

-- A text that closes as many brackets as stand before it, without a comma outside of brackets and quotes,
-- and with fewer than 2^31 brackets open anywhere. A quoted string stands as it is rendered; the three
-- dots of a cut one may follow.
pub data Closes : ℕ → Text → Type 0 where
  nothing : Closes 0 []
  letter :
      {n : ℕ} {s : Text} (c : ℕ) → IsNoneOf (text "\"()[]{},") c → Closes n s → Closes n (c ∷ s)
  inner_comma : {n : ℕ} {s : Text} → Closes (suc n) s → Closes (suc n) (b',' ∷ s)
  bracket :
      {n : ℕ} {s : Text} (c : ℕ)
      → IsOneOf (text "([{") c
      → n + 1 < 2 ^ 31
      → Closes (suc n) s
      → Closes n (c ∷ s)
  end_bracket :
      {n : ℕ} {s : Text} (c : ℕ) → IsOneOf (text ")]}") c → Closes n s → Closes (suc n) (c ∷ s)
  quoted :
      {n : ℕ} {s : Text} (bytes : List ℕ) (raw : Text)
      → Renders bytes raw
      → NoDot s
      → Closes n s
      → Closes n (quote_mark ∷ raw ++ quote_mark ∷ s)
  cut :
      {n : ℕ} {s : Text} (bytes : List ℕ) (raw : Text)
      → Renders bytes raw
      → Closes n s
      → Closes n (quote_mark ∷ (raw ++ quote_mark ∷ (text "..." ++ s)))

split_skip :
    (depth : ℤ) (current before s : Text)
    → split_from (length before) depth current (before ++ s) ≡ split_from 0 depth current s
unfolding split_from
split_skip depth current [] s = refl
split_skip depth current (c ∷ before) s = split_skip depth current before s

no_dots : (s : Text) → NoDot s → starts_with (text "...") s ≡ false
unfolding starts_with strip_prefix
no_dots [] h = refl
no_dots (c ∷ s) h = ground arith

NoDot-append : (s t : Text) → NoDot s → NoDot t → NoDot (s ++ t)
NoDot-append [] t h k = k
NoDot-append (c ∷ s) t h k = h

other_arm : (n c : ℕ) → IsNoneOf (text "\"()[]{},") c → arm_of (pos n) c ≡ other
unfolding arm_of
other_arm n c h = ground arith

opening_arm : (n c : ℕ) → IsOneOf (text "([{") c → arm_of (pos n) c ≡ opening
unfolding arm_of
opening_arm n c (Any.here e) = rw e refl
opening_arm n c (Any.there (Any.here e)) = rw e refl
opening_arm n c (Any.there (Any.there (Any.here e))) = rw e refl
opening_arm n c (Any.there (Any.there (Any.there h))) = elim h [ ]

closing_arm : (n c : ℕ) → IsOneOf (text ")]}") c → arm_of (pos n) c ≡ closing_bracket
unfolding arm_of
closing_arm n c (Any.here e) = rw e refl
closing_arm n c (Any.there (Any.here e)) = rw e refl
closing_arm n c (Any.there (Any.there (Any.here e))) = rw e refl
closing_arm n c (Any.there (Any.there (Any.there h))) = elim h [ ]

quote_arm : (depth : ℤ) → arm_of depth quote_mark ≡ quote
unfolding arm_of
quote_arm depth = refl

inner_arm : (n : ℕ) → arm_of (pos (suc n)) b',' ≡ other
unfolding arm_of
inner_arm n = refl

comma_arm : arm_of (pos 0) b',' ≡ comma
unfolding arm_of
comma_arm = refl

-- A quoted string, with what is read behind it.
split_quoted :
    (depth : ℤ) (current : Text) (q : Quoted) (piece s : Text)
    → read_quoted (quote_mark ∷ (piece ++ s)) ≡ some q
    → q.end ≡ suc (length piece)
    → split_from 0 depth current (quote_mark ∷ (piece ++ s))
      ≡ split_from 0 depth (current ++ quote_mark ∷ piece) s
unfolding split_from
split_quoted depth current q piece s read e =
    rw (quote_arm depth, read, split_from)
      (ap₂ (λ n u. split_from n depth (current ++ u) (piece ++ s)) (omega (arith, e))
          (ap (λ n. take n (quote_mark ∷ piece ++ s)) e
            ∙ ap (λ t. quote_mark ∷ t) (take-full_append piece s))
        ∙ split_skip depth (current ++ quote_mark ∷ piece) piece s)

-- A quoted string with the dots behind it, if there are any.
split_string :
    (depth : ℤ) (current : Text) (bytes : List ℕ) (raw dots rest : Text)
    → Renders bytes raw
    → (if starts_with (text "...") (dots ++ rest) then 3 else 0) ≡ length dots
    → split_from 0 depth current (quote_mark ∷ (raw ++ quote_mark ∷ (dots ++ rest)))
      ≡ split_from 0 depth (current ++ (quote_mark ∷ raw ++ quote_mark ∷ dots)) rest
split_string depth current bytes raw dots rest r n =
    let q : Quoted = record {
      bytes = bytes;
      end = length raw + 2 + (if starts_with (text "...") (dots ++ rest) then 3 else 0);
      truncated = starts_with (text "...") (dots ++ rest);
    } in
    let joined = append_assoc raw (quote_mark ∷ dots) rest in
    ap (λ u. split_from 0 depth current (quote_mark ∷ u)) (sym joined)
    ∙ split_quoted depth current q (raw ++ quote_mark ∷ dots) rest
        (ap (λ u. read_quoted (quote_mark ∷ u)) joined
          ∙ read_quoted-Renders bytes raw (dots ++ rest) r)
        (ap (λ k. length raw + 2 + k) n ∙ omega (arith, length-append raw (quote_mark ∷ dots)))

-- One character, by its arm.
split_other :
    (depth : ℤ) (current : Text) (c : ℕ) (s : Text)
    → arm_of depth c ≡ other
    → split_from 0 depth current (c ∷ s) ≡ split_from 0 depth (current ++ c ∷ []) s
unfolding split_from
split_other depth current c s h = rw (h, split_from) refl

split_opening :
    (n : ℕ) (current : Text) (c : ℕ) (s : Text)
    → arm_of (pos n) c ≡ opening
    → n + 1 < 2 ^ 31
    → split_from 0 (pos n) current (c ∷ s) ≡ split_from 0 (pos (suc n)) (current ++ c ∷ []) s
unfolding split_from
split_opening n current c s h small =
    let inner : deeper (pos n) ≡ pos (suc n) = ground (arith, small) in
    rw (h, split_from) (ap (λ d. split_from 0 d (current ++ c ∷ []) s) inner)

split_closing :
    (n : ℕ) (current : Text) (c : ℕ) (s : Text)
    → arm_of (pos (suc n)) c ≡ closing_bracket
    → split_from 0 (pos (suc n)) current (c ∷ s) ≡ split_from 0 (pos n) (current ++ c ∷ []) s
unfolding split_from
split_closing n current c s h = rw (h, split_from) refl

grown :
    (current piece s t : Text)
    → split_from 0 (pos 0) ((current ++ piece) ++ s) t
      ≡ split_from 0 (pos 0) (current ++ (piece ++ s)) t
grown current piece s t = ap (λ u. split_from 0 (pos 0) u t) (append_assoc current piece s)

split_comma :
    (current s : Text)
    → split_from 0 (pos 0) current (b',' ∷ s) ≡ trim current ∷ split_from 0 (pos 0) [] s
unfolding split_from
split_comma current s = rw (comma_arm, split_from) refl

split_end : (current : Text) → split_from 0 (pos 0) current [] ≡ last_part current
unfolding split_from
split_end current = refl

dots_lem :
    (s : Text) → (if starts_with (text "...") (text "..." ++ s) then 3 else 0) ≡ length (text "...")
unfolding starts_with strip_prefix
dots_lem s = refl

split_inside :
    {n : ℕ} {s : Text}
    → Closes n s
    → (current t : Text) → NoDot t
    → split_from 0 (pos n) current (s ++ t) ≡ split_from 0 (pos 0) (current ++ s) t
split_inside nothing current t h = ap (λ u. split_from 0 (pos 0) u t) (sym (append-nil current))
split_inside (letter {n = n} {s = s} c arm k) current t h =
    split_other (pos n) current c (s ++ t) (other_arm n c arm)
    ∙ split_inside k (current ++ c ∷ []) t h
    ∙ grown current (c ∷ []) s t
split_inside (inner_comma {n = n} {s = s} k) current t h =
    split_other (pos (suc n)) current b',' (s ++ t) (inner_arm n)
    ∙ split_inside k (current ++ b',' ∷ []) t h
    ∙ grown current (b',' ∷ []) s t
split_inside (bracket {n = n} {s = s} c arm small k) current t h =
    split_opening n current c (s ++ t) (opening_arm n c arm) small
    ∙ split_inside k (current ++ c ∷ []) t h
    ∙ grown current (c ∷ []) s t
split_inside (end_bracket {n = n} {s = s} c arm k) current t h =
    split_closing n current c (s ++ t) (closing_arm (suc n) c arm)
    ∙ split_inside k (current ++ c ∷ []) t h
    ∙ grown current (c ∷ []) s t
split_inside (quoted {n = n} {s = s} bytes raw r dot k) current t h =
    let piece = quote_mark ∷ raw ++ quote_mark ∷ [] in
    ap (λ u. split_from 0 (pos n) current (quote_mark ∷ u)) (append_assoc raw (quote_mark ∷ s) t)
    ∙ split_string (pos n) current bytes raw [] (s ++ t) r
        (ap (λ b. if b then 3 else 0) (no_dots (s ++ t) (NoDot-append s t dot h)))
    ∙ split_inside k (current ++ piece) t h
    ∙ grown current piece s t
    ∙ ap (λ u. split_from 0 (pos 0) (current ++ quote_mark ∷ u) t)
        (append_assoc raw (quote_mark ∷ []) s)
split_inside (cut {n = n} {s = s} bytes raw r k) current t h =
    let piece = quote_mark ∷ raw ++ quote_mark ∷ text "..." in
    ap (λ u. split_from 0 (pos n) current (quote_mark ∷ u))
      (append_assoc raw (quote_mark ∷ (text "..." ++ s)) t)
    ∙ split_string (pos n) current bytes raw (text "...") (s ++ t) r (dots_lem (s ++ t))
    ∙ split_inside k (current ++ piece) t h
    ∙ grown current piece s t
    ∙ ap (λ u. split_from 0 (pos 0) (current ++ quote_mark ∷ u) t)
        (append_assoc raw (quote_mark ∷ text "...") s)

-- An argument list as it is written: each argument and a comma, and what follows the last comma.
abbrev pub listed_args : List Text → Text → Text
listed_args [] last = last
listed_args (a ∷ args) last = a ++ b',' ∷ listed_args args last

-- For arguments in which brackets and quotes are closed, with fewer than 2^31 brackets open at once, and every comma is in one of them: the list of
-- them splits to them, each without the white space around it, and the last only if it is visible.
pub split_args-listed_args :
    (args : List Text) (last : Text)
    → All (Closes 0) args
    → Closes 0 last
    → split_args (listed_args args last) ≡ map trim args ++ last_part last
unfolding split_args
split_args-listed_args [] last h k =
    ap (split_from 0 (pos 0) []) (sym (append-nil last)) ∙ split_inside k [] [] tt ∙ split_end last
split_args-listed_args (a ∷ args) last (c, h) k =
    split_inside c [] (b',' ∷ listed_args args last) refl
    ∙ split_comma a (listed_args args last)
    ∙ ap (λ t. trim a ∷ t) (split_args-listed_args args last h k)
