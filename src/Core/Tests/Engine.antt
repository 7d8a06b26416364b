-- ===== src/Core/Tests/Engine.antt =====
-- Tests of the engine as a whole, and an instance of each theorem about it.
use install_scope.Common.{
  [], ◌∷◌, ◌≡◌, refl, ◌≢◌, ◌↔◌, ◌%◌, ◌^◌, min, true, false, some, arith, All, Any, u32_max,
}
use install_scope.Common.Text.{text_eq, trim, Text, text}
use install_scope.Common.Sort.{IsSorted}
use install_scope.Core.Events.{strace, aya, proc_spawn, command_line, is_framing}
use install_scope.Core.Findings.{display_cmp}
use install_scope.Core.Findings.Collapse.{HaveDistinctKeys}
use install_scope.Core.Findings.Preserved.{IsAbout}
use install_scope.Core.Coverage.Notes.{aya_dns_queries_note}
use install_scope.Core.Coverage.{observability, unobserved}
use install_scope.Core.Catalog.{
  basename, check_rule, check_rules, download_piped_to_shell, observation_class, rule_for, validate,
  ok,
}
use install_scope.Core.Catalog.Validity.{IsWellFormed, validate_iff}
use install_scope.Core.Rules.{evaluate, clean_result_is_trustworthy, session_zones, detect_backend}
use install_scope.Core.Rules.Commands.{
  runs_interpreter, pipes_into_interpreter, contains_word, downloads, is_piped_script, position,
  pipes_download_to_shell, truncate_subject,
}
use install_scope.Core.Rules.Shows.{Shows, piped_download}
use install_scope.Core.Rules.Tracing.{IsTraced, evaluate-IsTraced}
use install_scope.Core.Rules.Firing.{evaluate-fires}
use install_scope.Core.Rules.Report.{evaluate-IsSorted, evaluate-skips}
use install_scope.Core.Rules.Trust.{
  evaluate-counts, clean_result_is_trustworthy_iff, unplaced_writes, observed_events, IsTrustworthy,
}
use install_scope.Core.Tests.{
  small_catalog, small_recording, piped_rule, dns_rule, piped_spawn, event_of,
}

small_catalog-validate : validate small_catalog ≡ ok tt
unfolding validate check_rules check_rule trim text_eq
small_catalog-validate = refl

small_catalog-IsWellFormed : IsWellFormed small_catalog
small_catalog-IsWellFormed = (validate_iff small_catalog).0 small_catalog-validate

abbrev piped_subject : Text
piped_subject = text "sh -c curl https://x.io | sudo bash"

piped_spawn-is_piped : pipes_download_to_shell piped_spawn.argv false ≡ true
unfolding pipes_download_to_shell text_eq basename position is_piped_script downloads contains_word
    pipes_into_interpreter runs_interpreter
piped_spawn-is_piped = refl

piped_spawn-Shows :
    Shows small_catalog
      (session_zones (small_recording strace))
      (proc_spawn piped_spawn)
      download_piped_to_shell
      piped_subject
unfolding truncate_subject command_line
piped_spawn-Shows = piped_download piped_spawn piped_spawn-is_piped

piped_rule-chosen : rule_for small_catalog download_piped_to_shell ≡ some piped_rule
unfolding rule_for
piped_rule-chosen = refl

spawns_observed :
    (reason : Text)
    → observability
        (detect_backend (small_recording strace))
        (observation_class download_piped_to_shell)
      ≢ unobserved reason
unfolding observability detect_backend observation_class
spawns_observed reason e = cc

evaluate-fires_example :
    Any
      (IsAbout piped_rule.id piped_subject)
      (evaluate small_catalog (small_recording strace)).findings
evaluate-fires_example =
    evaluate-fires small_catalog (small_recording strace) (event_of strace (proc_spawn piped_spawn))
      download_piped_to_shell piped_rule piped_subject small_catalog-IsWellFormed
      (Any.there (Any.there (Any.here refl))) piped_spawn-Shows piped_rule-chosen spawns_observed

evaluate-IsTraced_example :
    All
      (IsTraced small_catalog (session_zones (small_recording strace)) (small_recording strace))
      (evaluate small_catalog (small_recording strace)).findings
evaluate-IsTraced_example = evaluate-IsTraced small_catalog (small_recording strace)

evaluate-IsSorted_example :
    IsSorted display_cmp (evaluate small_catalog (small_recording aya)).findings
    × HaveDistinctKeys (evaluate small_catalog (small_recording aya)).findings
evaluate-IsSorted_example = evaluate-IsSorted small_catalog (small_recording aya)

evaluate-counts_example :
    ((evaluate small_catalog (small_recording strace)).unresolved_paths
      ≡ min
          (unplaced_writes (session_zones (small_recording strace)) (small_recording strace))
          u32_max)
    × ((evaluate small_catalog (small_recording strace)).observations
        ≡ observed_events (small_recording strace) % 2 ^ 64)
evaluate-counts_example = evaluate-counts small_catalog (small_recording strace)

two_observed : observed_events (small_recording strace) ≡ 2
unfolding is_framing
two_observed = refl

clean_result_is_trustworthy_iff_example :
    (clean_result_is_trustworthy (evaluate small_catalog (small_recording strace)) ≡ true)
    ↔ IsTrustworthy (small_recording strace)
clean_result_is_trustworthy_iff_example =
    clean_result_is_trustworthy_iff small_catalog (small_recording strace)
      (omega (arith, two_observed))

-- The analysis of the recording by aya: the write is reported, the name resolution is not observed.
unobserved_dns :
    observability (detect_backend (small_recording aya)) (observation_class dns_rule.kind)
    ≡ unobserved aya_dns_queries_note
unfolding observability detect_backend observation_class
unobserved_dns = refl

evaluate-skips_example :
    All (λ f. f.rule_id ≢ dns_rule.id) (evaluate small_catalog (small_recording aya)).findings
    × Any
        (λ k. k ≡ (dns_rule.id, aya_dns_queries_note))
        (evaluate small_catalog (small_recording aya)).skipped_rules
evaluate-skips_example =
    evaluate-skips small_catalog (small_recording aya) dns_rule aya_dns_queries_note
      (Any.there (Any.here refl)) refl unobserved_dns

-- A checksum of a download starts with a shell's name, and a shell by its path does not.
checksum_is_piped :
    pipes_download_to_shell
      (text "sh" ∷ text "-c" ∷ text "curl https://x.io | sha256sum" ∷ [])
      false
    ≡ true
unfolding pipes_download_to_shell text_eq basename position is_piped_script downloads contains_word
    pipes_into_interpreter runs_interpreter
checksum_is_piped = refl

shell_path_not_piped :
    pipes_download_to_shell (text "sh" ∷ text "-c" ∷ text "curl https://x.io | /bin/sh" ∷ []) false
    ≡ false
unfolding pipes_download_to_shell text_eq basename position is_piped_script downloads contains_word
    pipes_into_interpreter runs_interpreter
shell_path_not_piped = refl
