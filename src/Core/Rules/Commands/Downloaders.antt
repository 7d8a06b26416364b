-- ===== src/Core/Rules/Commands/Downloaders.antt =====
-- core/src/rules.rs: the name of a downloader as a word of a script.
use install_scope.Common.{
  ℕ, ◌≡◌, ◌⊎◌, refl, ap, ◌∙◌, inl, inr, false, not, [], ◌∷◌, ◌++◌, All, Bool, Any, Any-append_iff,
}
use mathlib.Core.Path.{subst⁻¹}
use mathlib.Core.List.{append_assoc}
use install_scope.Common.Text.{Text, text, split_where, split_where-append, split_where-none}
use install_scope.Core.Rules.Commands.{is_word_char}
use install_scope.Core.Rules.Commands.Piped.{Downloads}

pub data IsDownloader : Text → Type 0 where
  is_curl : IsDownloader (text "curl")
  is_wget : IsDownloader (text "wget")
  is_fetch : IsDownloader (text "fetch")

-- No letter, digit, `_` or `-` stands before or after.
abbrev pub StartsApart : Text → Type 0
StartsApart [] = Unit
StartsApart (c ∷ _) = is_word_char c ≡ false

abbrev pub EndsApart : Text → Type 0
EndsApart s =
    (s ≡ []) ⊎ ((before : Text) × (c : ℕ) × (s ≡ before ++ c ∷ []) × (is_word_char c ≡ false))

abbrev pub is_gap : ℕ → Bool
is_gap c = not (is_word_char c)

pub IsDownloader-one_word : {tool : Text} → IsDownloader tool → All (λ c. is_gap c ≡ false) tool
IsDownloader-one_word is_curl = (refl, (refl, (refl, (refl, tt))))
IsDownloader-one_word is_wget = (refl, (refl, (refl, (refl, tt))))
IsDownloader-one_word is_fetch = (refl, (refl, (refl, (refl, (refl, tt)))))

-- A word between characters that are not of a word is a piece.
pub word_found :
    (before word after : Text)
    → EndsApart before
    → All (λ c. is_gap c ≡ false) word
    → (d : ℕ) → is_word_char d ≡ false
    → Any (λ w. w ≡ word) (split_where is_gap (before ++ (word ++ d ∷ after)))
word_found before word after ends one d apart =
    let behind = split_where-append is_gap word d after (ap not apart) in
    let found : Any (λ w. w ≡ word) (split_where is_gap (word ++ d ∷ after)) =
      subst⁻¹ (Any (λ w. w ≡ word))
        (behind ∙ ap (λ l. l ++ split_where is_gap after) (split_where-none is_gap word one))
        (Any.here refl) in
    elim ends [
      | inl e ↦
          subst⁻¹ (λ b. Any (λ w. w ≡ word) (split_where is_gap (b ++ (word ++ d ∷ after)))) e found
      | inr (front, c, e, gap) ↦
          subst⁻¹ (Any (λ w. w ≡ word))
            (ap (λ b. split_where is_gap (b ++ (word ++ d ∷ after))) e
              ∙ ap (split_where is_gap) (append_assoc front (c ∷ []) (word ++ d ∷ after))
              ∙ split_where-append is_gap front c (word ++ d ∷ after) (ap not gap))
            ((Any-append_iff (split_where is_gap front)).1 (inr found))
    ]

pub IsDownloader-Downloads :
    (script tool : Text)
    → IsDownloader tool
    → Any (λ w. w ≡ tool) (split_where is_gap script)
    → Downloads script
IsDownloader-Downloads script tool is_curl h = Any.here h
IsDownloader-Downloads script tool is_wget h = Any.there (Any.here h)
IsDownloader-Downloads script tool is_fetch h = Any.there (Any.there (Any.here h))
