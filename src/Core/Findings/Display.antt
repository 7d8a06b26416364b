-- ===== src/Core/Findings/Display.antt =====
-- core/src/findings.rs: `select_bullets` and the order of display.
use mathlib.Core.Path.{subst}
use install_scope.Common.{
  sym, All-at, All-self, All-is_item, Any-map, filter-Any, Any-of_filter, not-Any-nil, ◌≤◌, ◌≡◌,
  refl, ◌⊎◌, inl, inr, true, List, [], ◌∷◌, Any, Any-take-drop, All, All-take, All-map,
  filter-holds, length, length-take-le, take,
}
use install_scope.Common.Compare.{
  IsLawful, compare-IsLawful, compare_by-IsLawful, reverse_by-IsLawful, lexicographic-IsLawful,
  text_cmp-IsLawful,
}
use install_scope.Common.Sort.{
  sort_by, sort_by-IsSorted, sort_by-All, sort_by-Any, take-NotAfter-drop, take-IsSorted, IsSorted,
  NotAfter,
}
use install_scope.Core.Findings.{
  Finding, severity_rank, contributes_to_score, display_cmp, sort_for_display, scorable, pool_of,
  select_bullets, max_bullets,
}

pub display_cmp-IsLawful : IsLawful display_cmp
display_cmp-IsLawful =
    lexicographic-IsLawful (compare_by-IsLawful (λ f. severity_rank f.severity) compare-IsLawful) (
      lexicographic-IsLawful (reverse_by-IsLawful (λ f. f.occurrences) compare-IsLawful) (
        lexicographic-IsLawful (compare_by-IsLawful (λ f. f.rule_id) text_cmp-IsLawful)
          (compare_by-IsLawful (λ f. f.subject) text_cmp-IsLawful)))

pub sort_for_display-IsSorted : (fs : List Finding) → IsSorted display_cmp (sort_for_display fs)
unfolding sort_for_display
sort_for_display-IsSorted fs = sort_by-IsSorted display_cmp display_cmp-IsLawful fs

abbrev pub IsScorable : Finding → Type 0
IsScorable f = contributes_to_score f.severity ≡ true

-- The bullets of a list of findings, against what a reader is promised.
pub record AreBullets (fs bullets : List Finding) : Type 0 where
  pub few : length bullets ≤ max_bullets
  pub sorted : IsSorted display_cmp bullets
  pub genuine : All (λ b. Any (λ g. g ≡ b) fs) bullets
  pub no_trivia : Any IsScorable fs → All IsScorable bullets
  pub worst_first :
      (f : Finding)
      → Any (λ g. g ≡ f) fs
      → IsScorable f
      → Any (λ g. g ≡ f) bullets ⊎ All (λ b. NotAfter display_cmp b f) bullets

-- The first three of a sorted pool.
abbrev shown : List Finding → List Finding
shown pool = take max_bullets (sort_for_display pool)

shown_or_after :
    (pool : List Finding) (f : Finding)
    → Any (λ g. g ≡ f) pool
    → Any (λ g. g ≡ f) (shown pool) ⊎ All (λ b. NotAfter display_cmp b f) (shown pool)
unfolding sort_for_display
shown_or_after pool f h =
    elim (Any-take-drop max_bullets (sort_by display_cmp pool) (sort_by-Any display_cmp pool h)) [
      | inl taken ↦ inl taken
      | inr left_out ↦ inr (
          All-map _ (λ b. NotAfter display_cmp b f)
            (λ b after. All-at (NotAfter display_cmp b) _ after left_out) (shown pool)
            (take-NotAfter-drop display_cmp max_bullets (sort_by display_cmp pool)
              (sort_for_display-IsSorted pool)))
    ]

shown-All : (P : Finding → Type 0) (pool : List Finding) → All P pool → All P (shown pool)
unfolding sort_for_display
shown-All P pool h = All-take P max_bullets _ (sort_by-All display_cmp P pool h)

shown-AreBullets :
    (fs pool : List Finding)
    → All (λ b. Any (λ g. g ≡ b) fs) pool
    → (Any IsScorable fs → All IsScorable pool)
    → ((f : Finding) → Any (λ g. g ≡ f) fs → IsScorable f → Any (λ g. g ≡ f) pool)
    → AreBullets fs (shown pool)
shown-AreBullets fs pool genuine no_trivia whole = record {
  few = length-take-le max_bullets (sort_for_display pool);
  sorted = take-IsSorted display_cmp max_bullets _ (sort_for_display-IsSorted pool);
  genuine = shown-All _ pool genuine;
  no_trivia = λ h. shown-All IsScorable pool (no_trivia h);
  worst_first = λ f h k. shown_or_after pool f (whole f h k);
}

scorable-listed :
    (fs : List Finding) (f : Finding)
    → Any (λ g. g ≡ f) fs
    → IsScorable f
    → Any (λ g. g ≡ f) (scorable fs)
unfolding scorable
scorable-listed fs f h k = filter-Any _ fs (Any-map (λ g e. (e, subst IsScorable (sym e) k)) h)

scorable-genuine : (fs : List Finding) → All (λ b. Any (λ g. g ≡ b) fs) (scorable fs)
unfolding scorable
scorable-genuine fs = All-self (scorable fs) (λ b h. Any-of_filter _ fs h)

scorable-IsScorable : (fs : List Finding) → All IsScorable (scorable fs)
unfolding scorable
scorable-IsScorable fs = filter-holds (λ f. contributes_to_score f.severity) fs

-- With nothing scorable, the pool is everything.
no_scorable : (fs : List Finding) → scorable fs ≡ [] → ¬ Any IsScorable fs
unfolding scorable
no_scorable fs e h =
    let listed = filter-Any (λ f. contributes_to_score f.severity) fs (Any-map (λ f k. (k, k)) h) in
    not-Any-nil (subst (Any IsScorable) e listed)

bullets_of :
    (fs out : List Finding) → scorable fs ≡ out → AreBullets fs (take max_bullets (pool_of out fs))
bullets_of fs [] e =
    shown-AreBullets fs fs (All-is_item fs) (λ h. absurd (no_scorable fs e h)) (λ f h _. h)
bullets_of fs (g ∷ rest) e =
    shown-AreBullets fs (g ∷ rest) (subst (All (λ b. Any (λ f. f ≡ b) fs)) e (scorable-genuine fs))
      (λ _. subst (All IsScorable) e (scorable-IsScorable fs))
      (λ f h k. subst (Any (λ g. g ≡ f)) e (scorable-listed fs f h k))

-- For any findings, the bullets are findings of the list, at most three, in display order; if a
-- scorable finding exists none of them is informational, and every scorable finding that is not
-- shown comes after all that are.
pub select_bullets-AreBullets : (fs : List Finding) → AreBullets fs (select_bullets fs)
unfolding select_bullets
select_bullets-AreBullets fs = bullets_of fs (scorable fs) refl
