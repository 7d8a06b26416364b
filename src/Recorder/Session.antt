-- ===== src/Recorder/Session.antt =====
-- recorder/src/session.rs: `summarize_stream`, which reads a recording back and says whether it can be
-- trusted. The JSON parser is a parameter.
pub mod Summaries
pub mod Written
use install_scope.Common.Text.Lines.{lines}
use install_scope.Common.{
  ℕ, suc, ◌+◌, ◌⊎◌, inl, inr, Bool, true, false, Option, none, some, List, [], ◌∷◌, ◌==◌, not,
  if◌then◌else◌, unwrap_or, incr_u64,
}
use install_scope.Common.Int.{ℤ}
use install_scope.Common.Text.{Text, text, split, strip_suffix, trim}
use install_scope.Core.Errors.{
  CoreError, malformed_event, unsupported_schema_version, missing_session_end, Fallible, ok, err,
  ◌>>=◌,
}
use install_scope.Core.Events.{
  Event, schema_version_supported, Payload, session_start, fs_write, fs_read, net_connect,
  dns_query, proc_spawn, heartbeat, session_end, SessionEnd,
}
use install_scope.Core.Events.Reason.{IncompleteReason}

abbrev pub or_malformed : ℕ → Text ⊎ Event → Fallible Event
or_malformed line (inl source) = err (malformed_event line source)
or_malformed line (inr event) = ok event

abbrev pub versioned : Event → Fallible Event
versioned event =
    if event.schema_version == schema_version_supported
    then ok event
    else err (unsupported_schema_version event.schema_version schema_version_supported)

-- `Event::from_jsonl`
unfoldable pub from_jsonl : (Text → Text ⊎ Event) → Text → ℕ → Fallible Event
from_jsonl from_str line line_number = do
  event ← or_malformed line_number (from_str line)
  versioned event

pub record StreamSummary : Type 0 where
  pub events : ℕ
  pub heartbeats : ℕ
  pub complete : Bool
  pub incomplete_reasons : List IncompleteReason
  pub command_exit_code : Option ℤ
  pub has_session_start : Bool

abbrev pub is_partial : StreamSummary → Bool
is_partial s = not s.complete

-- The summary so far, and whether an end was seen.
pub record Seen : Type 0 where
  pub summary : StreamSummary
  pub saw_end : Bool

abbrev pub nothing_seen : Seen
nothing_seen = record {
  summary = record {
    events = 0;
    heartbeats = 0;
    complete = false;
    incomplete_reasons = [];
    command_exit_code = none;
    has_session_start = false;
  };
  saw_end = false;
}

abbrev pub one_more : StreamSummary → StreamSummary
one_more s = record s { events = incr_u64 s.events }

abbrev pub with_end : StreamSummary → SessionEnd → StreamSummary
with_end s end = record s {
  complete = end.complete;
  incomplete_reasons = end.incomplete_reasons;
  command_exit_code = end.command_exit_code;
}

abbrev pub see : Payload → Seen → Seen
see (session_start _) seen = record seen {
  summary = record seen.summary { has_session_start = true };
}
see (heartbeat _) seen = record seen {
  summary = record seen.summary { heartbeats = incr_u64 seen.summary.heartbeats };
}
see (session_end end) seen = record { summary = with_end seen.summary end; saw_end = true }
see (fs_write _) seen = record seen { summary = one_more seen.summary }
see (fs_read _) seen = record seen { summary = one_more seen.summary }
see (net_connect _) seen = record seen { summary = one_more seen.summary }
see (dns_query _) seen = record seen { summary = one_more seen.summary }
see (proc_spawn _) seen = record seen { summary = one_more seen.summary }

abbrev pub is_blank : Text → Bool
is_blank [] = true
is_blank (_ ∷ _) = false

module _ (from_str : Text → Text ⊎ Event) where
  -- The loop over the lines, from the index of the first.
  abbrev pub summarize_lines : ℕ → List Text → Seen → Fallible Seen
  summarize_lines index [] seen = ok seen
  summarize_lines index (line ∷ rest) seen =
      let skipped = summarize_lines (suc index) rest seen in
      if is_blank (trim line)
      then skipped
      else from_jsonl from_str line (suc index) >>= λ event.
          summarize_lines (suc index) rest (see event.payload seen)

  unfoldable pub summarize_stream : Text → Fallible StreamSummary
  unfolding lines
  summarize_stream contents = summarize_lines 0 (lines contents) nothing_seen >>= λ seen.
      if not seen.saw_end then err missing_session_end else ok seen.summary
