-- ===== src/Core/Tests/Parts.antt =====
-- Tests of the core's parts, and an instance of each theorem about them.
use install_scope.Common.{
  inr, ℕ, zero, suc, ◌≡◌, refl, ◌↔◌, ◌⊎◌, ◌%◌, ◌^◌, ◌≤◌, ◌<◌, min, true, false, none, [], ◌∷◌,
  arith, All, Any, u32_max, take, length,
}
use install_scope.Common.Text.{
  trim, ends_with, strip_suffix, trim_start_where, text_eq, Text, text, trim_start_matches,
  IsPrefix, byte_len,
}
use install_scope.Core.Events.{is_resolved}
use install_scope.Core.Zones.{first_zone, placement_of, within, outside, inside, is_runtime, home}
use install_scope.Core.Zones.Placing.{
  placement_of-outside_iff, placement_of-Places, Places, IsOutside,
}
use install_scope.Core.Findings.{
  compute, score_cap, deduplicate, select_bullets, critical, count_of, max_evidence_per_finding,
  Severity,
}
use install_scope.Core.Findings.Scoring.{compute_lem, weighted_sum, tally}
use install_scope.Core.Findings.Display.{select_bullets-AreBullets, AreBullets}
use install_scope.Core.Findings.Collapse.{
  find_key, collapse, find_key-deduplicate, deduplicate-HaveDistinctKeys, HaveDistinctKeys,
}
use install_scope.Core.Findings.Merging.{
  deduplicate-merges, occurrences_of, total_occurrences, rank_of, worst_rank, evidence_of,
  all_evidence, IsFresh,
}
use install_scope.Core.Catalog.{
  check_rule, check_rules, Catalog, ok, validate, load, suffix_matches, is_registry_host,
  to_ascii_lowercase, normalized,
}
use install_scope.Core.Catalog.Validity.{validate_iff, load_iff, IsWellFormed}
use install_scope.Core.Catalog.Hosts.{is_registry_host_iff, InDomain}
use install_scope.Core.Rules.Commands.{truncate_subject}
use install_scope.Core.Rules.Commands.Shortening.{truncate_subject_lem}
use install_scope.Core.Tests.{small_catalog, project_zones, at_path, firings, finding_with}

-- A sibling of the project is outside it, whatever the names share.
beside_project-placed : placement_of (at_path (text "/work/application/x")) project_zones ≡ outside
unfolding placement_of is_resolved is_runtime first_zone within
beside_project-placed = refl

in_home-placed : placement_of (at_path (text "/home/dev/.cache/x")) project_zones ≡ inside home
unfolding placement_of is_resolved is_runtime first_zone within
in_home-placed = refl

placement_of-outside_iff_example : IsOutside (at_path (text "/work/application/x")) project_zones
placement_of-outside_iff_example =
    (placement_of-outside_iff (at_path (text "/work/application/x")) project_zones).0
      beside_project-placed

placement_of-Places_example :
    Places
      (at_path (text "/home/dev/.cache/x"))
      project_zones
      (placement_of (at_path (text "/home/dev/.cache/x")) project_zones)
placement_of-Places_example =
    placement_of-Places (at_path (text "/home/dev/.cache/x")) project_zones

compute_lem_example :
    ((compute firings).value ≡ min (weighted_sum firings) score_cap)
    × ((compute firings).raw ≡ min (weighted_sum firings) u32_max)
    × ((s : Severity) → count_of (compute firings).counts s ≡ tally s firings % 2 ^ 32)
compute_lem_example = compute_lem firings

select_bullets-AreBullets_example : AreBullets firings (select_bullets firings)
select_bullets-AreBullets_example = select_bullets-AreBullets firings

find_key-deduplicate_example :
    find_key (text "w") (text "/etc/a") (deduplicate firings)
    ≡ collapse (text "w") (text "/etc/a") none firings
find_key-deduplicate_example = find_key-deduplicate (text "w") (text "/etc/a") firings

deduplicate-HaveDistinctKeys_example : HaveDistinctKeys (deduplicate firings)
deduplicate-HaveDistinctKeys_example = deduplicate-HaveDistinctKeys firings

firings-IsFresh : All IsFresh firings
firings-IsFresh =
    let one : IsFresh (finding_with (text "w") critical (text "/etc/a") 1) =
      (omega arith, omega arith) in
    (one, (one, (one, (one, tt))))

deduplicate-merges_example :
    (occurrences_of (find_key (text "w") (text "/etc/a") (deduplicate firings))
      ≡ min (total_occurrences (text "w") (text "/etc/a") firings) u32_max)
    × (rank_of (find_key (text "w") (text "/etc/a") (deduplicate firings))
        ≡ worst_rank (text "w") (text "/etc/a") firings)
    × (evidence_of (find_key (text "w") (text "/etc/a") (deduplicate firings))
        ≡ take max_evidence_per_finding (all_evidence (text "w") (text "/etc/a") firings))
deduplicate-merges_example = deduplicate-merges (text "w") (text "/etc/a") firings firings-IsFresh

small_catalog-accepted : validate small_catalog ≡ ok tt
unfolding validate check_rules check_rule trim text_eq
small_catalog-accepted = refl

validate_iff_example : (validate small_catalog ≡ ok tt) ↔ IsWellFormed small_catalog
validate_iff_example = validate_iff small_catalog

-- A parser that returns one catalog, and a file system with one file.
abbrev parsed_as_small : Text → Text ⊎ Catalog
parsed_as_small source = inr small_catalog

abbrev one_file : Text → Text ⊎ Text
one_file path = inr (text "version: 1")

load_iff_example : load one_file parsed_as_small (text "rules.yaml") ≡ ok small_catalog
load_iff_example =
    (load_iff one_file parsed_as_small (text "rules.yaml") small_catalog).1
      (text "version: 1", refl, refl, (validate_iff small_catalog).0 small_catalog-accepted)

-- A host that only ends in the letters of a domain is not in it.
lookalike : suffix_matches (text "evilnpmjs.org") (text ".npmjs.org") ≡ false
unfolding suffix_matches text_eq trim_start_where strip_suffix ends_with
lookalike = refl

is_registry_host_iff_example :
    (is_registry_host small_catalog (text "Registry.npmjs.org.") ≡ true) ↔ (
      Any
        (λ r. to_ascii_lowercase r ≡ to_ascii_lowercase (normalized (text "Registry.npmjs.org.")))
        small_catalog.registry_hosts
      ⊎ Any
          (λ s. InDomain (trim_start_matches b'.' s) (normalized (text "Registry.npmjs.org.")))
          small_catalog.registry_suffixes)
is_registry_host_iff_example = is_registry_host_iff small_catalog (text "Registry.npmjs.org.")

abbrev fetched_script : Text
fetched_script = text "curl https://x.io | sudo bash -s"

truncate_subject_lem_example :
    (length (truncate_subject (text "sh -c x")) ≤ 201)
    × IsPrefix (take 200 (text "sh -c x")) (truncate_subject (text "sh -c x"))
    × ((truncate_subject (text "sh -c x") ≡ text "sh -c x") ⊎ (200 < byte_len (text "sh -c x")))
truncate_subject_lem_example = truncate_subject_lem (text "sh -c x")

-- Seventy characters of three bytes each.
abbrev repeated : ℕ → Text
repeated zero = []
repeated (suc n) = 8364 ∷ repeated n
