-- ===== src/Common/Text/Lines.antt =====
-- `str::lines`, and that it gives back the lines of which a text was made.
use mathlib.Core.Path.{◌≡◌, refl, ap, ◌∙◌}
use mathlib.Core.Logic.{◌≢◌, ◌⊎◌, inr}
use mathlib.Core.List.{List, [], ◌∷◌, ◌++◌}
use install_scope.Common.Tests.{unwrap_or}
use install_scope.Common.Text.Scan.{Text, strip_suffix}
use install_scope.Common.Text.Trim.{trim}
use install_scope.Common.Text.Split.{split, split-piece, split-ne-nil, Lacks}

-- A line ends before `\n` or `\r\n`; after the last `\n` there is none unless text follows.
abbrev pub without_cr : Text → Text
without_cr line = unwrap_or (strip_suffix (13 ∷ []) line) line

abbrev pub lines_of : List Text → List Text
lines_of [] = []
lines_of ([] ∷ []) = []
lines_of ((c ∷ line) ∷ []) = (c ∷ line) ∷ []
lines_of (line ∷ next ∷ rest) = without_cr line ∷ lines_of (next ∷ rest)

unfoldable pub lines : Text → List Text
unfolding split strip_suffix
lines contents = lines_of (split 10 contents)

lines_of-cons :
    (line : Text) (pieces : List Text)
    → pieces ≢ []
    → lines_of (line ∷ pieces) ≡ without_cr line ∷ lines_of pieces
lines_of-cons line [] h = absurd (h refl)
lines_of-cons [] (next ∷ rest) h = refl
lines_of-cons (c ∷ line) (next ∷ rest) h = refl

-- A line without a line break, ended by one, is the first line.
pub lines-line :
    (line rest : Text) → Lacks 10 line → lines (line ++ 10 ∷ rest) ≡ without_cr line ∷ lines rest
unfolding lines
lines-line line rest h =
    ap lines_of (split-piece 10 line rest h)
    ∙ lines_of-cons line (split 10 rest) (split-ne-nil 10 rest)

-- How a value is kept as a line of its own: not blank, with no carriage return at its end, and read back
-- as the value.
pub record IsLine {ℓ} {A : Type ℓ} (decode : Text → Text ⊎ A) (a : A) (line : Text) : Type ℓ where
  pub read_back : decode line ≡ inr a
  pub unbroken : Lacks 10 line
  pub visible : trim line ≢ []
  pub no_return : without_cr line ≡ line

pub lines-IsLine {ℓ} :
    {A : Type ℓ} (decode : Text → Text ⊎ A) (a : A) (line rest : Text)
    → IsLine decode a line
    → lines (line ++ 10 ∷ rest) ≡ line ∷ lines rest
lines-IsLine decode a line rest l =
    lines-line line rest l.unbroken ∙ ap (λ u. u ∷ lines rest) l.no_return
