-- ===== src/Core/Findings/Merging.antt =====
-- core/src/findings.rs: `deduplicate`, what the finding of a key holds.
use mathlib.Core.List.{append_assoc, append-nil}
use install_scope.Common.{
  ℕ, ◌+◌, ◌≤◌, ◌≡◌, sym, ap, ◌∙◌, inl, inr, Option, none, some, List, [], ◌∷◌, ◌++◌, arith,
  if◌then◌else◌, ltb, Bool-cases, All, length, take, min, u32_max, saturating_add_u32,
  take_of_length-le, take-append_of_full, take-take_append, length-take-le, length-append,
}
use install_scope.Common.Text.{Text}
use install_scope.Core.Findings.{
  Evidence, Finding, severity_rank, max_evidence_per_finding, push_evidence, push_all, absorb,
  deduplicate,
}
use install_scope.Core.Findings.Collapse.{
  has_key, find_key, absorb_into, collapse, find_key-deduplicate,
}

-- A firing as the engine produces it.
abbrev pub IsFresh : Finding → Type 0
IsFresh f = (f.occurrences ≤ u32_max) × (length f.evidence ≤ max_evidence_per_finding)

abbrev pub occurrences_of : Option Finding → ℕ
occurrences_of none = 0
occurrences_of (some f) = f.occurrences

-- The rank of the severity; none is below every severity.
abbrev pub rank_of : Option Finding → ℕ
rank_of none = 4
rank_of (some f) = severity_rank f.severity

abbrev pub evidence_of : Option Finding → List Evidence
evidence_of none = []
evidence_of (some f) = f.evidence

module _ (rule subject : Text) where
  abbrev pub total_occurrences : List Finding → ℕ
  total_occurrences [] = 0
  total_occurrences (f ∷ fs) =
      let later = total_occurrences fs in
      if has_key rule subject f then f.occurrences + later else later

  abbrev pub worst_rank : List Finding → ℕ
  worst_rank [] = 4
  worst_rank (f ∷ fs) =
      let later = worst_rank fs in
      if has_key rule subject f then min (severity_rank f.severity) later else later

  abbrev pub all_evidence : List Finding → List Evidence
  all_evidence [] = []
  all_evidence (f ∷ fs) = (if has_key rule subject f then f.evidence else []) ++ all_evidence fs

push_evidence_lem :
    (kept : List Evidence) (e : Evidence)
    → length kept ≤ max_evidence_per_finding
    → push_evidence kept e ≡ take max_evidence_per_finding (kept ++ e ∷ [])
unfolding push_evidence
push_evidence_lem kept e h = elim (Bool-cases (ltb (length kept) max_evidence_per_finding)) [
  | inl room ↦ rw room (
      sym (
        take_of_length-le max_evidence_per_finding (kept ++ e ∷ [])
          (ground (arith, length-append kept (e ∷ [])))))
  | inr full ↦ rw full (
      sym (
        take-append_of_full max_evidence_per_finding kept (e ∷ []) (ground arith)
        ∙ take_of_length-le max_evidence_per_finding kept h))
]

push_all_lem :
    (kept es : List Evidence)
    → length kept ≤ max_evidence_per_finding
    → push_all kept es ≡ take max_evidence_per_finding (kept ++ es)
unfolding push_all
push_all_lem kept [] h =
    sym (ap (take max_evidence_per_finding) (append-nil kept) ∙ take_of_length-le _ kept h)
push_all_lem kept (e ∷ es) h =
    let pushed = push_evidence_lem kept e h in
    push_all_lem (push_evidence kept e) es
      (rw pushed (length-take-le max_evidence_per_finding (kept ++ e ∷ [])))
    ∙ ap (λ k. take max_evidence_per_finding (k ++ es)) pushed
    ∙ take-take_append max_evidence_per_finding (kept ++ e ∷ []) es
    ∙ ap (take max_evidence_per_finding) (append_assoc kept (e ∷ []) es)

-- One firing more, in each of the three respects.
absorb_into-occurrences :
    (o : Option Finding) (f : Finding)
    → f.occurrences ≤ u32_max
    → (absorb_into o f).occurrences ≡ min (occurrences_of o + f.occurrences) u32_max
unfolding absorb saturating_add_u32
absorb_into-occurrences none f h = omega arith
absorb_into-occurrences (some g) f h = omega arith

absorb_into-rank :
    (o : Option Finding) (f : Finding)
    → severity_rank (absorb_into o f).severity ≡ min (rank_of o) (severity_rank f.severity)
unfolding absorb
absorb_into-rank none f = ground arith
absorb_into-rank (some g) f = ground arith

absorb_into-evidence :
    (o : Option Finding) (f : Finding)
    → length (evidence_of o) ≤ max_evidence_per_finding
    → length f.evidence ≤ max_evidence_per_finding
    → (absorb_into o f).evidence ≡ take max_evidence_per_finding (evidence_of o ++ f.evidence)
unfolding absorb
absorb_into-evidence none f _ h = sym (take_of_length-le _ f.evidence h)
absorb_into-evidence (some g) f h _ = push_all_lem g.evidence f.evidence h

module _ (rule subject : Text) where
  collapse-occurrences :
      (o : Option Finding) (fs : List Finding)
      → occurrences_of o ≤ u32_max
      → All IsFresh fs
      → occurrences_of (collapse rule subject o fs)
        ≡ min (occurrences_of o + total_occurrences rule subject fs) u32_max
  collapse-occurrences o [] h _ = omega arith
  collapse-occurrences o (f ∷ fs) h ((p, _), k) = elim (Bool-cases (has_key rule subject f)) [
    | inl e ↦ rw e (
        collapse-occurrences (some (absorb_into o f)) fs
          (omega (arith, absorb_into-occurrences o f p)) k
        ∙ omega (arith, absorb_into-occurrences o f p))
    | inr e ↦ rw e (collapse-occurrences o fs h k)
  ]

  worst_rank-le : (fs : List Finding) → worst_rank rule subject fs ≤ 4
  worst_rank-le [] = omega arith
  worst_rank-le (f ∷ fs) = ground (arith, worst_rank-le fs)

  collapse-rank :
      (o : Option Finding) (fs : List Finding)
      → rank_of (collapse rule subject o fs) ≡ min (rank_of o) (worst_rank rule subject fs)
  collapse-rank o [] = ground arith
  collapse-rank o (f ∷ fs) = elim (Bool-cases (has_key rule subject f)) [
    | inl e ↦ rw e (collapse-rank (some (absorb_into o f)) fs ∙ omega (arith, absorb_into-rank o f))
    | inr e ↦ rw e (collapse-rank o fs)
  ]

  collapse-evidence :
      (o : Option Finding) (fs : List Finding)
      → length (evidence_of o) ≤ max_evidence_per_finding
      → All IsFresh fs
      → evidence_of (collapse rule subject o fs)
        ≡ take max_evidence_per_finding (evidence_of o ++ all_evidence rule subject fs)
  collapse-evidence o [] h _ = sym (
      ap (take max_evidence_per_finding) (append-nil (evidence_of o))
      ∙ take_of_length-le _ (evidence_of o) h)
  collapse-evidence o (f ∷ fs) h ((_, q), k) = elim (Bool-cases (has_key rule subject f)) [
    | inl e ↦
        let absorbed = absorb_into-evidence o f h q in
        rw e (
          collapse-evidence (some (absorb_into o f)) fs
            (rw absorbed (length-take-le max_evidence_per_finding (evidence_of o ++ f.evidence))) k
          ∙ ap (λ es. take max_evidence_per_finding (es ++ all_evidence rule subject fs)) absorbed
          ∙ take-take_append max_evidence_per_finding (evidence_of o ++ f.evidence)
              (all_evidence rule subject fs)
          ∙ ap (take max_evidence_per_finding)
              (append_assoc (evidence_of o) f.evidence (all_evidence rule subject fs)))
    | inr e ↦ rw e (collapse-evidence o fs h k)
  ]

-- For firings as the engine produces them and any key: the finding that `deduplicate` leaves counts
-- the occurrences of all its firings, saturated; has the worst of their severities; and keeps the
-- first five pieces of their evidence, in order.
pub deduplicate-merges :
    (rule subject : Text) (fs : List Finding)
    → All IsFresh fs
    → (occurrences_of (find_key rule subject (deduplicate fs))
        ≡ min (total_occurrences rule subject fs) u32_max)
      × (rank_of (find_key rule subject (deduplicate fs)) ≡ worst_rank rule subject fs)
      × (evidence_of (find_key rule subject (deduplicate fs))
          ≡ take max_evidence_per_finding (all_evidence rule subject fs))
deduplicate-merges rule subject fs h =
    let e = find_key-deduplicate rule subject fs in
    (
      ap occurrences_of e
          ∙ omega (arith, collapse-occurrences rule subject none fs (omega arith) h),
      ap rank_of e
          ∙ omega (arith, collapse-rank rule subject none fs, worst_rank-le rule subject fs),
      ap evidence_of e ∙ collapse-evidence rule subject none fs (omega arith) h,
    )
