-- ===== src/Core/Findings/Scoring.antt =====
-- core/src/findings.rs: `Score::compute`, against a weighted sum by severity.
use install_scope.Common.{
  ℕ, ◌+◌, ◌*◌, ◌%◌, ◌^◌, ◌≤◌, ◌<◌, ◌≡◌, refl, ◌↔◌, true, false, List, [], ◌∷◌, arith, min, All,
  saturating_add_u32, incr_u32, u32_max, ap, ◌==◌, if◌then◌else◌, ◌∙◌,
}
use install_scope.Core.Findings.{
  Severity, critical, high, medium, severity_rank, weight, contributes_to_score, Finding,
  SeverityCounts, no_counts, count_of, add_count, add_weight, score_from, score_cap, compute,
  was_capped, is_clean,
}

-- How many findings have the severity.
abbrev pub tally : Severity → List Finding → ℕ
tally s [] = 0
tally s (f ∷ fs) = (if severity_rank f.severity == severity_rank s then 1 else 0) + tally s fs

-- The sum that the Surprise Index is: informational findings do not enter, nor do occurrences.
abbrev pub weighted_sum : List Finding → ℕ
weighted_sum fs = 40 * tally critical fs + 15 * tally high fs + 5 * tally medium fs

add_weight-le : (s : Severity) (raw : ℕ) → raw ≤ u32_max → add_weight s raw ≤ u32_max
unfolding contributes_to_score weight saturating_add_u32
add_weight-le s raw h = ground arith

-- One finding more, in the sum so far and in the sum to come.
add_weight-weighted_sum :
    (f : Finding) (fs : List Finding) (raw : ℕ)
    → min (add_weight f.severity raw + weighted_sum fs) u32_max
      ≡ min (raw + weighted_sum (f ∷ fs)) u32_max
unfolding contributes_to_score weight saturating_add_u32
add_weight-weighted_sum f fs raw = ground arith

score_from-raw :
    (counts : SeverityCounts) (raw : ℕ) (fs : List Finding)
    → raw ≤ u32_max
    → (score_from counts raw fs).1 ≡ min (raw + weighted_sum fs) u32_max
unfolding score_from
score_from-raw counts raw [] h = omega arith
score_from-raw counts raw (f ∷ fs) h =
    score_from-raw (add_count counts f.severity) (add_weight f.severity raw) fs
      (add_weight-le f.severity raw h)
    ∙ add_weight-weighted_sum f fs raw

-- The counter of one severity, modulo the width of its word.
count_of-add_count :
    (s t : Severity) (counts : SeverityCounts) (n : ℕ)
    → (count_of (add_count counts t) s + n) % 2 ^ 32
      ≡ (count_of counts s + ((if severity_rank t == severity_rank s then 1 else 0) + n)) % 2 ^ 32
unfolding count_of add_count incr_u32
count_of-add_count s t counts n = ground arith

count_of-le :
    (s t : Severity) (counts : SeverityCounts)
    → count_of counts s < 2 ^ 32
    → count_of (add_count counts t) s < 2 ^ 32
unfolding count_of add_count incr_u32
count_of-le s t counts h = ground arith

score_from-counts :
    (s : Severity) (counts : SeverityCounts) (raw : ℕ) (fs : List Finding)
    → count_of counts s < 2 ^ 32
    → count_of (score_from counts raw fs).0 s ≡ (count_of counts s + tally s fs) % 2 ^ 32
unfolding score_from
score_from-counts s counts raw [] h = omega arith
score_from-counts s counts raw (f ∷ fs) h =
    score_from-counts s (add_count counts f.severity) (add_weight f.severity raw) fs
      (count_of-le s f.severity counts h)
    ∙ count_of-add_count s f.severity counts (tally s fs)

count_of-no_counts : (s : Severity) (n : ℕ) → count_of no_counts s + n ≡ n
unfolding count_of
count_of-no_counts s n = ground arith

no_counts-lt : (s : Severity) → count_of no_counts s < 2 ^ 32
no_counts-lt s = omega (arith, count_of-no_counts s 0)

-- For any findings, the raw score is the weighted sum, saturated at the width of its word, the
-- reported value is the weighted sum capped at 100, and each severity's count is the number of
-- findings that have it, modulo the width of its word. Occurrences and `low` findings do not enter.
pub compute_lem :
    (fs : List Finding)
    → ((compute fs).value ≡ min (weighted_sum fs) score_cap)
      × ((compute fs).raw ≡ min (weighted_sum fs) u32_max)
      × ((s : Severity) → count_of (compute fs).counts s ≡ tally s fs % 2 ^ 32)
unfolding compute
compute_lem fs = (
  omega (arith, score_from-raw no_counts 0 fs (omega arith)),
  omega (arith, score_from-raw no_counts 0 fs (omega arith)),
  λ s.
      score_from-counts s no_counts 0 fs (no_counts-lt s)
      ∙ ap (λ (n : ℕ). n % 2 ^ 32) (count_of-no_counts s (tally s fs)),
)

informational_of_zero :
    (fs : List Finding)
    → weighted_sum fs ≡ 0
    → All (λ f. contributes_to_score f.severity ≡ false) fs
unfolding contributes_to_score
informational_of_zero [] h = tt
informational_of_zero (f ∷ fs) h = ground (arith, informational_of_zero fs)

zero_of_informational :
    (fs : List Finding)
    → All (λ f. contributes_to_score f.severity ≡ false) fs
    → weighted_sum fs ≡ 0
unfolding contributes_to_score
zero_of_informational [] h = refl
zero_of_informational (f ∷ fs) (p, h) = ground (arith, zero_of_informational fs h)

clean_sum_iff : (fs : List Finding) → (is_clean (compute fs) ≡ true) ↔ (weighted_sum fs ≡ 0)
unfolding is_clean
clean_sum_iff fs = ground (arith, (compute_lem fs).0)

-- A score is clean exactly when every finding is informational.
pub is_clean_iff :
    (fs : List Finding)
    → (is_clean (compute fs) ≡ true) ↔ All (λ f. contributes_to_score f.severity ≡ false) fs
is_clean_iff fs = (
  λ h. informational_of_zero fs ((clean_sum_iff fs).0 h),
  λ h. (clean_sum_iff fs).1 (zero_of_informational fs h),
)

-- The cap is reported exactly when the weighted sum passed it.
pub was_capped_iff :
    (fs : List Finding) → (was_capped (compute fs) ≡ true) ↔ (score_cap < weighted_sum fs)
unfolding was_capped
was_capped_iff fs = ground (arith, (compute_lem fs).1)
