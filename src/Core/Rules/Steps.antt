-- ===== src/Core/Rules/Steps.antt =====
-- core/src/rules.rs: the evaluators, from what an event shows to what they emit.
use install_scope.Common.{◌≡◌, ◌⊎◌, false, none, List, ◌++◌, unwrap_or, arith, &&-eq-false}
use install_scope.Common.Text.{Text, text}
use install_scope.Core.Events.{Event, Payload, FsWrite, command_line, Zones}
use install_scope.Core.Zones.{outside, placement_of, is_unresolvable, is_scorable_as_outside}
use install_scope.Core.Zones.Placing.{placement_of-outside_iff}
use install_scope.Core.Findings.{Finding}
use install_scope.Core.Catalog.{RuleKind, Catalog}
use install_scope.Core.Rules.Commands.{is_executable_mode, truncate_subject}
use install_scope.Core.Rules.Evaluators.{
  is_chmod, connect_subject, emit, describe_write, evaluate_write, evaluate_read, evaluate_connect,
  evaluate_dns, evaluate_spawn,
}
use install_scope.Core.Rules.Shows.{
  Shows, escaped_write, escaped_chmod, config_read, failed_read, read, unusual_connect,
  external_connect, binary_query, foreign_query, piped_download, network_tool, unexpected,
}
use install_scope.Core.Rules.{Progress, evaluate_payload}

module _ (catalog : Catalog) (zones : Zones) (event : Event) where
  -- The findings afterwards are those before, with one more of the kind on the subject.
  abbrev pub Emits : List Finding → List Finding → RuleKind → Text → Type 0
  Emits out out' kind subject =
      (detail : Text) × (out' ≡ emit catalog kind subject event detail out none)

  abbrev pub Effect : Payload → List Finding → List Finding → Type 0
  Effect payload out out' =
      (out' ≡ out)
      ⊎ ((kind : RuleKind) × (subject : Text) × Shows catalog zones payload kind subject
          × Emits out out' kind subject)

  abbrev pub after : Payload → Progress → List Finding
  after payload p = (evaluate_payload catalog zones event payload p).raw

  -- A path is outside, or its placement is one that no rule scores.
  pub placement-outside_cases :
      (w : FsWrite)
      → (placement_of w.target zones ≡ outside)
        ⊎ (is_scorable_as_outside (placement_of w.target zones) ≡ false)
  unfolding is_scorable_as_outside
  placement-outside_cases w = ground arith

  -- Whatever an observation shows is emitted.
  pub shown_is_emitted :
      {payload : Payload} {kind : RuleKind} {subject : Text} (p : Progress)
      → Shows catalog zones payload kind subject
      → Emits p.raw (after payload p) kind subject
  unfolding is_unresolvable is_scorable_as_outside evaluate_write evaluate_read evaluate_connect
      evaluate_dns evaluate_spawn
  shown_is_emitted p (escaped_write w e n) =
      let placed = (placement_of-outside_iff w.target zones).1 e.is_outside in
      (
        describe_write w,
        ground (arith, &&-eq-false (is_chmod w.kind) (is_executable_mode w.mode) n),
      )
  shown_is_emitted p (escaped_chmod w e x) =
      let placed = (placement_of-outside_iff w.target zones).1 e.is_outside in
      (text "chmod " ++ unwrap_or w.mode (text "?") ++ text " " ++ w.target.path, ground arith)
  shown_is_emitted p (config_read r c) = (text "read package manager config", ground arith)
  shown_is_emitted p (failed_read r c f) =
      (text "failed: " ++ unwrap_or r.outcome.error (text "unknown error"), ground arith)
  shown_is_emitted p (read r c f) = (text "read succeeded", ground arith)
  shown_is_emitted p (unusual_connect c ip x u) =
      (text "connected to " ++ connect_subject ip c.port, ground arith)
  shown_is_emitted p (external_connect c ip x u) =
      (text "connected to " ++ connect_subject ip c.port, ground arith)
  shown_is_emitted p (binary_query q f b) = (text "resolved " ++ q.qname, ground arith)
  shown_is_emitted p (foreign_query q f b) = (text "resolved " ++ q.qname, ground arith)
  shown_is_emitted p (piped_download s d) = (command_line s, ground arith)
  shown_is_emitted p (network_tool s bin x t) = (truncate_subject (command_line s), ground arith)
  shown_is_emitted p (unexpected s bin x t u) = (truncate_subject (command_line s), ground arith)
