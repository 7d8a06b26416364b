-- ===== src/Recorder/Dns/Labels.antt =====
-- recorder/src/decode.rs: the loop of `parse_dns_question` over the labels of a name.
use mathlib.Core.Path.{subst}
use mathlib.Core.List.{append_assoc}
use install_scope.Common.{
  ℕ, suc, zero, ◌≤◌, ◌<◌, ◌≡◌, refl, sym, ap, ap₂, ◌∙◌, ◌⊎◌, inl, inr, true, false, Option, none,
  some, List, [], ◌∷◌, ◌++◌, ◌==◌, leb, ltb, all, length, take, drop, length-append,
  take-full_append, drop-full_append, take-drop, length-take_of_le, All, arith,
}
use install_scope.Common.Text.{Text}
use install_scope.Common.Text.Utf8.{from_utf8_lossy, from_utf8_lossy_ascii}
use install_scope.Recorder.Dns.{Labels, is_label_byte, with_label, read_labels}

-- One to 63 characters of a host name.
pub record IsLabel (label : Text) : Type 0 where
  pub visible : 1 ≤ length label
  pub short : length label < 64
  pub plain : all is_label_byte label ≡ true

-- The wire form of a name, without the empty label at its end.
abbrev pub on_wire : List Text → List ℕ
on_wire [] = []
on_wire (label ∷ labels) = length label ∷ label ++ on_wire labels

-- The labels are at the start of the bytes: with the empty label behind them, or as many as the loop
-- takes.
abbrev pub StartsWith : ℕ → List Text → List ℕ → List ℕ → Type 0
StartsWith rounds labels rest s =
    ((length labels < rounds) × (s ≡ on_wire labels ++ 0 ∷ rest))
    ⊎ ((length labels ≡ rounds) × (s ≡ on_wire labels ++ rest))

label_ascii : (l : List ℕ) → all is_label_byte l ≡ true → All (λ b. ltb b 0x80 ≡ true) l
label_ascii [] h = tt
label_ascii (b ∷ l) h = (ground arith, label_ascii l (ground arith))

lossy_label : (l : List ℕ) → all is_label_byte l ≡ true → from_utf8_lossy l ≡ l
lossy_label l h = from_utf8_lossy_ascii l (label_ascii l h)

read_label :
    (rounds : ℕ) (label : Text) (s : List ℕ)
    → IsLabel label
    → read_labels (suc rounds) (length label ∷ label ++ s) ≡ with_label label (read_labels rounds s)
unfolding read_labels
read_label rounds label s l =
    let some_length : (length label == 0) ≡ false = ground (arith, l.visible) in
    let no_pointer : leb 64 (length label) ≡ false = ground (arith, l.short) in
    let enough : ltb (length (label ++ s)) (length label) ≡ false =
      ground (arith, length-append label s) in
    rw
      (
        some_length,
        no_pointer,
        enough,
        take-full_append label s,
        drop-full_append label s,
        l.plain,
        lossy_label label l.plain,
      )
      refl

pub StartsWith-read_labels :
    (rounds : ℕ) (labels : List Text) (rest s : List ℕ)
    → All IsLabel labels
    → StartsWith rounds labels rest s
    → read_labels rounds s ≡ some (labels, rest)
unfolding read_labels
StartsWith-read_labels zero labels rest s ls (inl (less, _)) = absurd (omega (arith, less))
StartsWith-read_labels zero [] rest s ls (inr (_, e)) = ap (λ t. some ([], t)) e
StartsWith-read_labels zero (label ∷ labels) rest s ls (inr (n, _)) = absurd (omega (arith, n))
StartsWith-read_labels (suc rounds) [] rest s ls (inl (_, e)) = ap (read_labels (suc rounds)) e
StartsWith-read_labels (suc rounds) [] rest s ls (inr (n, _)) = absurd (omega (arith, n))
StartsWith-read_labels (suc rounds) (label ∷ labels) rest s (l, ls) (inl (less, e)) =
    let body = on_wire labels ++ 0 ∷ rest in
    ap (read_labels (suc rounds))
      (e ∙ ap (λ t. length label ∷ t) (append_assoc label (on_wire labels) (0 ∷ rest)))
    ∙ read_label rounds label body l
    ∙ ap (with_label label)
        (StartsWith-read_labels rounds labels rest body ls (inl (omega (arith, less), refl)))
StartsWith-read_labels (suc rounds) (label ∷ labels) rest s (l, ls) (inr (n, e)) =
    let body = on_wire labels ++ rest in
    ap (read_labels (suc rounds))
      (e ∙ ap (λ t. length label ∷ t) (append_assoc label (on_wire labels) rest))
    ∙ read_label rounds label body l
    ∙ ap (with_label label)
        (StartsWith-read_labels rounds labels rest body ls (inr (omega (arith, n), refl)))

StartsWith-cons :
    (rounds : ℕ) (label : Text) (labels : List Text) (rest s : List ℕ)
    → StartsWith rounds labels rest s
    → StartsWith (suc rounds) (label ∷ labels) rest (length label ∷ label ++ s)
StartsWith-cons rounds label labels rest s (inl (less, e)) = inl (
  omega (arith, less),
  ap (λ t. length label ∷ label ++ t) e
      ∙ ap (λ t. length label ∷ t) (sym (append_assoc label (on_wire labels) (0 ∷ rest))),
)
StartsWith-cons rounds label labels rest s (inr (n, e)) = inr (
  ap suc n,
  ap (λ t. length label ∷ label ++ t) e
      ∙ ap (λ t. length label ∷ t) (sym (append_assoc label (on_wire labels) rest)),
)

with_label-eq-some :
    (label : Text) (o : Option Labels) (labels : List Text) (rest : List ℕ)
    → with_label label o ≡ some (labels, rest)
    → (later : List Text) × (labels ≡ label ∷ later) × (o ≡ some (later, rest))
with_label-eq-some label none labels rest h = absurd (ground arith)
with_label-eq-some label (some (later, rest')) labels rest h = (later, ground arith, ground arith)

-- What a round has tested once it goes on.
round_lem :
    (rounds len : ℕ) (s : List ℕ) (labels : List Text) (rest : List ℕ)
    → read_labels (suc rounds) (len ∷ s) ≡ some (labels, rest)
    → ((len ≡ 0) × (labels ≡ []) × (s ≡ rest))
      ⊎ ((1 ≤ len)
          × (len < 64)
          × (len ≤ length s)
          × (all is_label_byte (take len s) ≡ true)
          × (with_label (from_utf8_lossy (take len s)) (read_labels rounds (drop len s))
              ≡ some (labels, rest)))
unfolding read_labels
round_lem rounds len s labels rest h = ground arith

pub read_labels-StartsWith :
    (rounds : ℕ) (s : List ℕ) (labels : List Text) (rest : List ℕ)
    → read_labels rounds s ≡ some (labels, rest)
    → All IsLabel labels × StartsWith rounds labels rest s
unfolding read_labels
read_labels-StartsWith zero s [] rest h = (tt, inr (refl, ground arith))
read_labels-StartsWith zero s (label ∷ labels) rest h = absurd (ground arith)
read_labels-StartsWith (suc rounds) [] labels rest h = absurd (ground arith)
read_labels-StartsWith (suc rounds) (len ∷ s) labels rest h =
    elim (round_lem rounds len s labels rest h) [
      | inl (root, empty, e) ↦
          subst (λ ls. All IsLabel ls × StartsWith (suc rounds) ls rest (len ∷ s)) (sym empty)
            (tt, inl (omega arith, ap₂ (λ x t. x ∷ t) root e))
      | inr (visible, short, fits, plain, h') ↦
          let label = take len s in
          let lossy = lossy_label label plain in
          let n = length-take_of_le len s fits in
          let (later, e, k) =
            with_label-eq-some (from_utf8_lossy label) (read_labels rounds (drop len s)) labels rest
              h' in
          let (ls, starts) = read_labels-StartsWith rounds (drop len s) later rest k in
          let l : IsLabel label = record {
            visible = omega (arith, visible, n);
            short = omega (arith, short, n);
            plain = plain;
          } in
          subst (λ x. All IsLabel x × StartsWith (suc rounds) x rest (len ∷ s))
            (ap (λ x. x ∷ later) (sym lossy) ∙ sym e)
            (
              (l, ls),
              subst (StartsWith (suc rounds) (label ∷ later) rest)
                  (ap₂ (λ x t. x ∷ t) n (take-drop len s))
                  (StartsWith-cons rounds label later rest (drop len s) starts),
            )
    ]
