-- ===== src/Core/Findings.antt =====
-- core/src/findings.rs: findings, their severities, the Surprise Index, the bullets of a comment and
-- the collapsing of repeated firings.
pub mod Scoring
pub mod Display
pub mod Collapse
pub mod Merging
pub mod Preserved
use install_scope.Common.{
  ℕ, zero, suc, ◌+◌, ◌<◌, Bool, true, false, not, Option, none, some, List, [], ◌∷◌, ◌++◌, ltb,
  ◌==◌, ◌&&◌, if◌then◌else◌, length, take, filter, min, saturating_add_u32, incr_u32, compare, ◌%◌,
  ◌^◌,
}
use install_scope.Common.Text.{Text, text, text_eq}
use install_scope.Common.Text.Order.{text_cmp}
use install_scope.Common.Compare.{Comparison, lexicographic, compare_by, reverse_by}
use install_scope.Common.Sort.{sort_by}

-- Most severe first, which is the order that is derived.
pub data Severity : Type 0 where
  critical high medium low : Severity

abbrev pub severity_rank : Severity → ℕ
severity_rank critical = 0
severity_rank high = 1
severity_rank medium = 2
severity_rank low = 3

unfoldable pub weight : Severity → ℕ
weight critical = 40
weight high = 15
weight medium = 5
weight low = 1

unfoldable pub contributes_to_score : Severity → Bool
contributes_to_score low = false
contributes_to_score _ = true

unfoldable pub severity_name : Severity → Text
severity_name critical = text "critical"
severity_name high = text "high"
severity_name medium = text "medium"
severity_name low = text "low"

pub record Evidence : Type 0 where
  pub ts_ns : ℕ
  pub pid : Option ℕ
  pub syscall : Option Text
  pub op : Text
  pub detail : Text

pub record Finding : Type 0 where
  pub rule_id : Text
  pub severity : Severity
  pub subject : Text
  pub title : Text
  pub note : Option Text
  pub occurrences : ℕ
  pub evidence : List Evidence

abbrev pub max_evidence_per_finding : ℕ
max_evidence_per_finding = 5

-- `Finding::new` and `Finding::with_note`
abbrev pub new_finding : Text → Severity → Text → Text → Evidence → Finding
new_finding rule_id severity subject title evidence = record {
  rule_id = rule_id;
  severity = severity;
  subject = subject;
  title = title;
  note = none;
  occurrences = 1;
  evidence = evidence ∷ [];
}

abbrev pub with_note : Finding → Text → Finding
with_note f note = record f { note = some note }

-- One more piece of evidence, while there is room.
unfoldable pub push_evidence : List Evidence → Evidence → List Evidence
push_evidence kept e = if ltb (length kept) max_evidence_per_finding then kept ++ e ∷ [] else kept

unfoldable pub merge_occurrence : Finding → Evidence → Finding
merge_occurrence f e = record f {
  occurrences = saturating_add_u32 f.occurrences 1;
  evidence = push_evidence f.evidence e;
}

-- `candidate.key() == finding.key()`
unfoldable pub same_key : Finding → Finding → Bool
same_key f g = text_eq f.rule_id g.rule_id && text_eq f.subject g.subject

pub record SeverityCounts : Type 0 where
  pub critical : ℕ
  pub high : ℕ
  pub medium : ℕ
  pub low : ℕ

abbrev pub no_counts : SeverityCounts
no_counts = record { critical = 0; high = 0; medium = 0; low = 0 }

-- Sums of `u32`.
unfoldable pub counts_total : SeverityCounts → ℕ
counts_total c = (c.critical + c.high + c.medium + c.low) % 2 ^ 32

unfoldable pub count_of : SeverityCounts → Severity → ℕ
count_of c critical = c.critical
count_of c high = c.high
count_of c medium = c.medium
count_of c low = c.low

unfoldable pub add_count : SeverityCounts → Severity → SeverityCounts
add_count c critical = record c { critical = incr_u32 c.critical }
add_count c high = record c { high = incr_u32 c.high }
add_count c medium = record c { medium = incr_u32 c.medium }
add_count c low = record c { low = incr_u32 c.low }

pub record Score : Type 0 where
  pub value : ℕ
  pub raw : ℕ
  pub counts : SeverityCounts

abbrev pub score_cap : ℕ
score_cap = 100

abbrev pub max_bullets : ℕ
max_bullets = 3

abbrev add_weight : Severity → ℕ → ℕ
add_weight s raw = if contributes_to_score s then saturating_add_u32 raw (weight s) else raw

-- The loop of `Score::compute`, over the counts and the raw sum so far.
unfoldable pub score_from : SeverityCounts → ℕ → List Finding → SeverityCounts × ℕ
score_from counts raw [] = (counts, raw)
score_from counts raw (f ∷ fs) =
    score_from (add_count counts f.severity) (add_weight f.severity raw) fs

unfoldable pub compute : List Finding → Score
compute fs =
    let (counts, raw) = score_from no_counts 0 fs in
    record { value = min raw score_cap; raw = raw; counts = counts }

unfoldable pub was_capped : Score → Bool
was_capped s = ltb score_cap s.raw

unfoldable pub is_clean : Score → Bool
is_clean s = s.value == 0

-- The order of a report: severity, then the most frequent, then the rule and the subject.
abbrev pub display_cmp : Comparison Finding
display_cmp = lexicographic (compare_by (λ f. severity_rank f.severity) compare) (
    lexicographic (reverse_by (λ f. f.occurrences) compare)
      (lexicographic (compare_by (λ f. f.rule_id) text_cmp) (compare_by (λ f. f.subject) text_cmp)))

unfoldable pub sort_for_display : List Finding → List Finding
sort_for_display = sort_by display_cmp

unfoldable pub scorable : List Finding → List Finding
scorable = filter (λ f. contributes_to_score f.severity)

abbrev pool_of : List Finding → List Finding → List Finding
pool_of [] fs = sort_for_display fs
pool_of (f ∷ rest) fs = sort_for_display (f ∷ rest)

unfoldable pub select_bullets : List Finding → List Finding
select_bullets fs = take max_bullets (pool_of (scorable fs) fs)

abbrev escalate : Bool → Finding → Finding → Finding
escalate true existing f = record existing { severity = f.severity; title = f.title }
escalate false existing f = existing

-- The evidence of a later firing, as far as there is room.
unfoldable pub push_all : List Evidence → List Evidence → List Evidence
push_all kept [] = kept
push_all kept (e ∷ es) = push_all (push_evidence kept e) es

-- What `deduplicate` does to the finding that is there already.
unfoldable pub absorb : Finding → Finding → Finding
absorb existing f =
    record (escalate (ltb (severity_rank f.severity) (severity_rank existing.severity)) existing
      f) {
        occurrences = saturating_add_u32 existing.occurrences f.occurrences;
        evidence = push_all existing.evidence f.evidence;
      }

-- One round: the first finding with the key absorbs, and a new key goes to the end.
unfoldable pub merge_into : List Finding → Finding → List Finding
merge_into [] f = f ∷ []
merge_into (c ∷ out) f =
    let later = c ∷ merge_into out f in if same_key c f then absorb c f ∷ out else later

unfoldable pub deduplicate_from : List Finding → List Finding → List Finding
deduplicate_from out [] = out
deduplicate_from out (f ∷ fs) = deduplicate_from (merge_into out f) fs

unfoldable pub deduplicate : List Finding → List Finding
deduplicate fs = deduplicate_from [] fs
