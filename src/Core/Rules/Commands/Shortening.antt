-- ===== src/Core/Rules/Commands/Shortening.antt =====
-- core/src/rules.rs: `truncate_subject`, which tests bytes and cuts characters.
use install_scope.Common.{
  ℕ, ◌+◌, ◌≤◌, ◌<◌, ◌≡◌, sym, ap, ◌∙◌, ◌++◌, [], ◌∷◌, arith, take, length, length-append,
  length-take-le, take_of_length-le, leb, if◌then◌else◌, Bool-cases, inl, inr, ◌⊎◌,
}
use mathlib.Core.List.{append-nil}
use install_scope.Common.Text.{Text, text, byte_len, len_utf8, IsPrefix}
use install_scope.Core.Rules.Commands.{truncate_subject}

-- A character takes at least one byte.
length-le-byte_len : (s : Text) → length s ≤ byte_len s
unfolding byte_len len_utf8
length-le-byte_len [] = omega arith
length-le-byte_len (c ∷ s) = ground (arith, length-le-byte_len s)

abbrev cut : ℕ → Text → Text
cut n s = if leb (byte_len s) n then s else take n s ++ text "…"

cut-of_le : (n : ℕ) (s : Text) → byte_len s ≤ n → cut n s ≡ s
cut-of_le n s h = ground arith

cut-of_lt : (n : ℕ) (s : Text) → n < byte_len s → cut n s ≡ take n s ++ text "…"
cut-of_lt n s h = ground arith

length-cut : (n : ℕ) (s : Text) → length (cut n s) ≤ n + 1
length-cut n s =
    ground (arith, length-le-byte_len s, length-append (take n s) (text "…"), length-take-le n s)

cut-IsPrefix : (n : ℕ) (s : Text) → IsPrefix (take n s) (cut n s)
cut-IsPrefix n s = elim (Bool-cases (leb (byte_len s) n)) [
  | inl short ↦
      let whole = take_of_length-le n s (ground (arith, length-le-byte_len s)) in
      ([], cut-of_le n s (ground arith) ∙ sym whole ∙ sym (append-nil (take n s)))
  | inr long ↦ (text "…", cut-of_lt n s (ground arith))
]

whole_or_long : (n : ℕ) (s : Text) → (cut n s ≡ s) ⊎ (n < byte_len s)
whole_or_long n s = elim (Bool-cases (leb (byte_len s) n)) [
  | inl short ↦ inl (cut-of_le n s (ground arith))
  | inr long ↦ inr (ground arith)
]

-- For every text: the shortened subject has at most 201 characters, it starts with the first 200
-- characters of the text, and a text of at most 200 bytes is left as it is.
pub truncate_subject_lem :
    (s : Text)
    → (length (truncate_subject s) ≤ 201)
      × IsPrefix (take 200 s) (truncate_subject s)
      × ((truncate_subject s ≡ s) ⊎ (200 < byte_len s))
unfolding truncate_subject
truncate_subject_lem s = (length-cut 200 s, cut-IsPrefix 200 s, whole_or_long 200 s)

-- For a text of at most 200 characters that takes more than 200 bytes: nothing is cut, and the
-- ellipsis is appended all the same, so that the result is longer than the text.
pub truncate_subject-marks_uncut :
    (s : Text) → length s ≤ 200 → 200 < byte_len s → truncate_subject s ≡ s ++ text "…"
unfolding truncate_subject
truncate_subject-marks_uncut s fits wide =
    cut-of_lt 200 s wide ∙ ap (λ t. t ++ text "…") (take_of_length-le 200 s fits)
