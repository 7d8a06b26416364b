-- ===== src/Recorder/Writer/Settings.antt =====
-- recorder/src/session.rs: what the sink of a `SessionWriter` holds beside the summary that the writer keeps.
use install_scope.Common.{
  ℕ, ◌≡◌, refl, ◌⊎◌, inr, true, false, Option, none, List, [], map, All, arith,
}
use install_scope.Common.Text.{Text}
use install_scope.Common.Text.Lines.{IsLine}
use install_scope.Core.Events.{
  Event, Backend, Zones, HostInfo, framing, session_start, session_end, heartbeat, Payload,
  is_framing, fs_write, fs_read, net_connect, dns_query, proc_spawn,
}
use install_scope.Recorder.Session.{StreamSummary, Seen, nothing_seen, see, one_more}
use install_scope.Recorder.Session.Summaries.{see_all}
use install_scope.Recorder.Session.Written.{IsRead}
use install_scope.Recorder.Writer.{Sink, SessionWriter}
use install_scope.Recorder.Writer.Endings.{IsReliable}

-- A heartbeat of a session whose phase nobody set.
abbrev pub plain_beat : Backend → ℕ → ℕ → ℕ → Event
plain_beat backend ns seq so_far =
    framing ns backend (heartbeat (record { seq = seq; events_so_far = so_far; phase = none }))

abbrev pub start_event : Text → Text → Backend → List Text → Zones → Option HostInfo → Event
start_event wall_clock_utc agent_version backend command zones host = framing 0 backend (
    session_start (record {
      wall_clock_utc = wall_clock_utc;
      agent_version = agent_version;
      command = command;
      zones = zones;
      host = host;
    }))

pub see_observed :
    (p : Payload) (seen : Seen)
    → is_framing p ≡ false
    → see p seen ≡ record seen { summary = one_more seen.summary }
unfolding is_framing
see_observed (session_start _) seen h = absurd (ground arith)
see_observed (heartbeat _) seen h = absurd (ground arith)
see_observed (session_end _) seen h = absurd (ground arith)
see_observed (fs_write _) seen h = refl
see_observed (fs_read _) seen h = refl
see_observed (net_connect _) seen h = refl
see_observed (dns_query _) seen h = refl
see_observed (proc_spawn _) seen h = refl

-- The summary of what a writer has written so far.
abbrev pub summary_of : {S : Type 0} → SessionWriter S → StreamSummary
summary_of w = record {
  events = w.events_emitted;
  heartbeats = w.heartbeats;
  complete = false;
  incomplete_reasons = [];
  command_exit_code = none;
  has_session_start = true;
}

-- A sink that keeps every line, an encoder that fails on no event, and a parser that reads the lines of
-- the heartbeats back as these.
pub record Setting (S : Type 0) : Type 0 where
  pub ops : Sink S
  pub held : S → List Text
  pub reliable : IsReliable ops held
  pub to_jsonl : Event → Text ⊎ Text
  pub encode : Event → Text
  pub encodes : (e : Event) → to_jsonl e ≡ inr (encode e)
  pub from_str : Text → Text ⊎ Event
  pub backend : Backend
  pub beats :
      (ns seq so_far : ℕ)
      → IsLine from_str
          (plain_beat backend ns seq so_far)
          (encode (plain_beat backend ns seq so_far))

module _ {S : Type 0} (setting : Setting S) where
  open setting use {held, encode, from_str, backend}

  -- The sink holds events whose summary the writer keeps.
  pub record IsRecorded (w : SessionWriter S) (events : List Event) : Type 0 where
    pub holds : held w.sink ≡ map encode events
    pub kept : All (IsRead from_str encode) events
    pub seen : see_all events nothing_seen ≡ record { summary = summary_of w; saw_end = false }
    pub same_backend : w.backend ≡ backend
    pub no_phase : w.phase ≡ none
