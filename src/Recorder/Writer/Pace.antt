-- ===== src/Recorder/Writer/Pace.antt =====
-- recorder/src/session.rs: how far a stream runs without a heartbeat.
use install_scope.Common.{◌^◌, ◌<◌, ◌≡◌, inr, none, Option, List, [], map, length, All, arith}
use install_scope.Common.Text.{Text}
use install_scope.Common.Text.Lines.{IsLine}
use install_scope.Core.Events.{is_framing, Event, Zones, HostInfo}
use install_scope.Recorder.Session.Written.{IsObserved}
use install_scope.Recorder.Writer.{SessionWriter, Readings, write_events, start}
use install_scope.Recorder.Writer.Settings.{Setting, start_event}
use install_scope.Recorder.Writer.Recorded.{start_ok, write_events_ok}
use install_scope.Recorder.Writer.Spacing.{gap_after, AreSpaced, observed_in}

-- For a sink that keeps every line and an encoder that fails on no event, whose lines for the start, the
-- heartbeats and the observations read back: a session that starts on an empty sink and writes fewer
-- than 2^64 observations, whatever the clock reads, leaves in the sink the lines of a stream of events,
-- in which the observations are these in their order, never more than 2000 follow each other without a
-- heartbeat, and fewer than 2000 have none behind them.
pub write_events-AreSpaced :
    {S : Type 0} (setting : Setting S) (sink : S) (wall_clock_utc agent_version : Text)
    (command : List Text) (zones : Zones) (host : Option HostInfo) (batch : List (Event × Readings))
    → setting.held sink ≡ []
    → IsLine setting.from_str
        (start_event wall_clock_utc agent_version setting.backend command zones host)
        (setting.encode
          (start_event wall_clock_utc agent_version setting.backend command zones host))
    → All (λ b. IsObserved setting.from_str setting.encode b.0) batch
    → length batch < 2 ^ 64
    → (w : SessionWriter S) × (w' : SessionWriter S) × (events : List Event) × (start setting.ops
          setting.to_jsonl sink wall_clock_utc agent_version setting.backend command zones host
        ≡ (w.sink, inr w))
      × (write_events setting.ops setting.to_jsonl w batch ≡ (w', none))
      × (setting.held w'.sink ≡ map setting.encode events)
      × (observed_in events ≡ map (λ b. b.0) batch)
      × AreSpaced 0 events
      × (gap_after 0 events < 2000)
unfolding is_framing
write_events-AreSpaced setting sink wall_clock_utc agent_version command zones host batch empty
      begins observed small =
    let (w, begun, first, none_yet, paced) =
      start_ok setting sink wall_clock_utc agent_version command zones host empty begins in
    let (w', events, written, recorded, count, seen, keeps) =
      write_events_ok setting w _ batch first observed (omega (arith, none_yet)) in
    let (pacing, few) = keeps paced (omega (arith, none_yet, small)) in
    (w, w', events, begun, written, recorded.holds, seen, pacing.spaced, few)
