-- ===== src/Common/Text/Split.antt =====
-- `str::split`, `str::rsplit` and `[str]::join`.
use Prim.Native.Nat.{ℕ}
use mathlib.Core.Path.{◌≡◌, refl, ap, ◌∙◌}
use mathlib.Core.Bool.{Bool, true, false}
use mathlib.Core.List.{List, [], ◌∷◌, ◌++◌, reverse, append_assoc}
use mathlib.Core.Logic.{inl, inr}
use native.Mathlib.Omega.{arith}
use install_scope.Common.Tests.{◌==◌, ==_refl, Bool-cases}
use install_scope.Common.Lists.{All}
use install_scope.Common.Text.Scan.{Text}

-- One more character at the front of the first piece.
abbrev push_first : ℕ → List Text → List Text
push_first c [] = (c ∷ []) ∷ []
push_first c (piece ∷ pieces) = (c ∷ piece) ∷ pieces

-- `split` at every character that passes the test: always at least one piece.
unfoldable pub split_where : (ℕ → Bool) → Text → List Text
split_where p [] = [] ∷ []
split_where p (c ∷ s) =
    let pieces = split_where p s in elim (p c) [ true ↦ [] ∷ pieces | false ↦ push_first c pieces ]

-- `split(c)` and `rsplit(c)`
unfoldable pub split : ℕ → Text → List Text
unfolding split_where
split c = split_where (λ x. x == c)

unfoldable pub rsplit : ℕ → Text → List Text
unfolding split
rsplit c s = reverse (split c s)

-- `[&str]::join`
unfoldable pub join_with : Text → List Text → Text
join_with sep [] = []
join_with sep (piece ∷ []) = piece
join_with sep (piece ∷ next ∷ pieces) = piece ++ sep ++ join_with sep (next ∷ pieces)

-- No character of the text is `c`.
abbrev pub Lacks : ℕ → Text → Type 0
Lacks c = All (λ x. (x == c) ≡ false)

push_first-All-Lacks :
    (c x : ℕ) (pieces : List Text)
    → (x == c) ≡ false
    → All (Lacks c) pieces
    → All (Lacks c) (push_first x pieces)
push_first-All-Lacks c x [] h _ = ((h, tt), tt)
push_first-All-Lacks c x (piece ∷ pieces) h (k, ks) = ((h, k), ks)

-- No piece of a text split at `c` holds a `c`.
pub split-All-Lacks : (c : ℕ) (s : Text) → All (Lacks c) (split c s)
unfolding split
split-All-Lacks c [] = (tt, tt)
split-All-Lacks c (x ∷ s) =
    ground (arith, split-All-Lacks c s, push_first-All-Lacks c x (split c s))

push_first-ne-nil : (c : ℕ) (pieces : List Text) → push_first c pieces ≡ [] → ⊥
push_first-ne-nil c [] h = ground arith
push_first-ne-nil c (piece ∷ pieces) h = ground arith

pub split-ne-nil : (c : ℕ) (s : Text) → split c s ≡ [] → ⊥
unfolding split
split-ne-nil c [] h = ground arith
split-ne-nil c (x ∷ s) h = ground (arith, push_first-ne-nil x (split c s))

-- A piece up to the first separator.
pub split-piece :
    (c : ℕ) (piece s : Text) → Lacks c piece → split c (piece ++ c ∷ s) ≡ piece ∷ split c s
unfolding split
split-piece c [] s h = ground (arith, ==_refl c)
split-piece c (x ∷ piece) s (lacks, h) = ground (arith, split-piece c piece s h)

split-of_Lacks : (c : ℕ) (piece : Text) → Lacks c piece → split c piece ≡ piece ∷ []
unfolding split
split-of_Lacks c [] h = refl
split-of_Lacks c (x ∷ piece) (lacks, h) = ground (arith, split-of_Lacks c piece h)

join_with-cons :
    (c : ℕ) (piece next : Text) (pieces : List Text)
    → join_with (c ∷ []) (piece ∷ next ∷ pieces) ≡ piece ++ (c ∷ join_with (c ∷ []) (next ∷ pieces))
unfolding join_with
join_with-cons c piece next pieces =
    append_assoc piece (c ∷ []) (join_with (c ∷ []) (next ∷ pieces))

-- Pieces without the separator, at least one, come back from the text that joins them.
pub split-join_with :
    (c : ℕ) (piece : Text) (pieces : List Text)
    → All (Lacks c) (piece ∷ pieces)
    → split c (join_with (c ∷ []) (piece ∷ pieces)) ≡ piece ∷ pieces
split-join_with c piece [] (h, _) = unfold join_with in split-of_Lacks c piece h
split-join_with c piece (next ∷ pieces) (h, hs) =
    ap (split c) (join_with-cons c piece next pieces)
    ∙ split-piece c piece (join_with (c ∷ []) (next ∷ pieces)) h
    ∙ ap (λ ps. piece ∷ ps) (split-join_with c next pieces hs)

push_first-append :
    (c : ℕ) (pieces more : List Text)
    → (pieces ≡ [] → ⊥)
    → push_first c (pieces ++ more) ≡ push_first c pieces ++ more
push_first-append c [] more h = absurd (h refl)
push_first-append c (piece ∷ pieces) more h = refl

pub split_where-ne-nil : (p : ℕ → Bool) (s : Text) → split_where p s ≡ [] → ⊥
unfolding split_where
split_where-ne-nil p [] h = ground arith
split_where-ne-nil p (c ∷ s) h = elim (Bool-cases (p c)) [
  | inl e ↦ ground (arith, (rw (e, split_where) at h))
  | inr e ↦ push_first-ne-nil c (split_where p s) (rw (e, split_where) at h)
]

-- A text is split at a separator in it.
pub split_where-append :
    (p : ℕ → Bool) (s : Text) (c : ℕ) (t : Text)
    → p c ≡ true
    → split_where p (s ++ c ∷ t) ≡ split_where p s ++ split_where p t
unfolding split_where
split_where-append p [] c t h = rw (h, split_where) refl
split_where-append p (x ∷ s) c t h = elim (Bool-cases (p x)) [
  | inl e ↦ rw (e, split_where) (ap (λ l. [] ∷ l) (split_where-append p s c t h))
  | inr e ↦
      rw (e, split_where)
        (ap (push_first x) (split_where-append p s c t h)
          ∙ push_first-append x (split_where p s) (split_where p t) (split_where-ne-nil p s))
]

-- What holds no separator is the start of the first piece.
pub split_where-first :
    (p : ℕ → Bool) (s t : Text)
    → All (λ c. p c ≡ false) s
    → (piece : Text) × (pieces : List Text) × (split_where p (s ++ t) ≡ (s ++ piece) ∷ pieces)
unfolding split_where
split_where-first p [] t h = first (split_where p t) (split_where-ne-nil p t)
  where
    first :
        (l : List Text)
        → (l ≡ [] → ⊥)
        → (piece : Text) × (pieces : List Text) × (l ≡ piece ∷ pieces)
    first [] h = absurd (h refl)
    first (piece ∷ pieces) h = (piece, pieces, refl)
split_where-first p (c ∷ s) t (k, h) =
    let (piece, pieces, e) = split_where-first p s t h in
    (piece, pieces, rw (k, split_where) (ap (push_first c) e))

pub split_where-none :
    (p : ℕ → Bool) (s : Text) → All (λ c. p c ≡ false) s → split_where p s ≡ s ∷ []
unfolding split_where
split_where-none p [] h = refl
split_where-none p (c ∷ s) (k, h) = rw (k, split_where) (ap (push_first c) (split_where-none p s h))
