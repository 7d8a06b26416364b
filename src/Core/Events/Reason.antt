-- ===== src/Core/Events/Reason.antt =====
-- core/src/events.rs: why a recording was incomplete, and how a reason is displayed.
use install_scope.Common.{ℕ, ◌++◌}
use install_scope.Common.Text.{Text, text}
use install_scope.Common.Text.Decimal.{decimal}

pub data IncompleteReason : Type 0 where
  backend_failed_to_start : Text → IncompleteReason
  backend_died : Text → IncompleteReason
  timeout : ℕ → IncompleteReason
  event_cap_reached : ℕ → IncompleteReason
  parse_errors : ℕ → IncompleteReason
  trace_truncated : Text → IncompleteReason
  interrupted : IncompleteReason
  other : Text → IncompleteReason

unfoldable pub display_reason : IncompleteReason → Text
unfolding decimal
display_reason (backend_failed_to_start detail) =
    text "recorder backend failed to start: " ++ detail
display_reason (backend_died detail) = text "recorder backend died: " ++ detail
display_reason (timeout limit_secs) = text "exceeded " ++ decimal limit_secs ++ text "s time limit"
display_reason (event_cap_reached cap) =
    text "event cap of " ++ decimal cap ++ text " reached; stream is truncated"
display_reason (parse_errors count) = decimal count ++ text " unparseable trace lines"
display_reason (trace_truncated detail) = text "trace output truncated: " ++ detail
display_reason interrupted = text "recording interrupted"
display_reason (other detail) = detail
