-- ===== src/Recorder/Writer.antt =====
-- recorder/src/session.rs: `SessionWriter`. The sink and the JSON encoder are parameters; an operation
-- returns the writer, which it changes also where it fails, and the error if there is one. Each reading
-- of the clock is an argument, in milliseconds or nanoseconds since the start.
pub mod Pace
pub mod Endings
pub mod Spacing
pub mod Settings
pub mod Recorded
pub mod Rereading
use install_scope.Common.{
  ℕ, ◌+◌, ◌-◌, ◌%◌, ◌^◌, ◌⊎◌, inl, inr, Bool, true, false, Option, none, some, List, [], ◌∷◌, ◌||◌,
  leb, if◌then◌else◌, incr_u64,
}
use install_scope.Common.Int.{ℤ}
use install_scope.Common.Text.{Text, text}
use install_scope.Core.Errors.{CoreError, serialize, io}
use install_scope.Core.Events.{
  Backend, Event, framing, Zones, HostInfo, session_start, heartbeat, session_end, SessionEnd,
  end_complete, end_partial,
}
use install_scope.Core.Events.Reason.{IncompleteReason, other}

-- `Write`: a line is written, and the sink flushed; either may fail, with the error's text.
pub record Sink (S : Type 0) : Type 0 where
  pub writeln : S → Text → S × Option Text
  pub flush : S → S × Option Text

pub record SessionWriter (S : Type 0) : Type 0 where
  pub sink : S
  pub backend : Backend
  pub events_emitted : ℕ
  pub heartbeats : ℕ
  pub last_heartbeat_events : ℕ
  pub last_heartbeat_ms : ℕ
  pub phase : Option Text
  pub finished : Bool

-- The readings of the clock that a heartbeat takes, and the one that asks whether it is due.
pub record Readings : Type 0 where
  pub due_ms : ℕ
  pub beat_ms : ℕ
  pub beat_ns : ℕ

abbrev pub heartbeat_event_interval : ℕ
heartbeat_event_interval = 2000

abbrev pub heartbeat_ms_interval : ℕ
heartbeat_ms_interval = 2000

abbrev pub stream_error : Text → CoreError
stream_error source = io (text "<session stream>") source

-- A `u64` difference, which wraps.
abbrev pub sub_u64 : ℕ → ℕ → ℕ
sub_u64 a b = (a + 2 ^ 64 - b) % 2 ^ 64

abbrev pub result_of : SessionEnd → Option CoreError → CoreError ⊎ SessionEnd
result_of end none = inr end
result_of end (some error) = inl error

module _ {S : Type 0} (ops : Sink S) (to_jsonl : Event → Text ⊎ Text) where
  -- The writer after an operation, and the error that ended it.
  abbrev pub Written : Type 0
  Written = SessionWriter S × Option CoreError

  abbrev pub and_then : Written → (SessionWriter S → Written) → Written
  and_then (w, none) next = next w
  and_then (w, some e) next = (w, some e)

  abbrev pub after_sink : SessionWriter S → S × Option Text → Written
  after_sink w (s, none) = (record w { sink = s }, none)
  after_sink w (s, some source) = (record w { sink = s }, some (stream_error source))

  abbrev pub flushed : SessionWriter S → Written
  flushed w = after_sink w (ops.flush w.sink)

  -- `to_jsonl` and `writeln!`
  abbrev pub put_line : SessionWriter S → Text ⊎ Text → Written
  put_line w (inl source) = (w, some (serialize source))
  put_line w (inr line) = after_sink w (ops.writeln w.sink line)

  abbrev pub put_event : SessionWriter S → Event → Written
  put_event w event = put_line w (to_jsonl event)

  abbrev pub beaten : SessionWriter S → Readings → SessionWriter S
  beaten w r = record w {
    heartbeats = incr_u64 w.heartbeats;
    last_heartbeat_events = w.events_emitted;
    last_heartbeat_ms = r.beat_ms;
  }

  abbrev pub beat_event : SessionWriter S → Readings → Event
  beat_event beat r = framing r.beat_ns beat.backend (
      heartbeat
        (record { seq = beat.heartbeats; events_so_far = beat.events_emitted; phase = beat.phase }))

  unfoldable pub write_heartbeat : SessionWriter S → Readings → Written
  write_heartbeat w r =
      let beat = beaten w r in and_then (put_event beat (beat_event beat r)) flushed

  abbrev pub is_due : SessionWriter S → Readings → Bool
  is_due w r =
      leb heartbeat_event_interval (sub_u64 w.events_emitted w.last_heartbeat_events)
      || leb heartbeat_ms_interval (r.due_ms - w.last_heartbeat_ms)

  unfoldable pub maybe_heartbeat : SessionWriter S → Readings → Written
  maybe_heartbeat w r = if is_due w r then write_heartbeat w r else (w, none)

  abbrev pub counted : SessionWriter S → SessionWriter S
  counted w = record w { events_emitted = incr_u64 w.events_emitted }

  unfoldable pub write_event : SessionWriter S → Event → Readings → Written
  write_event w event r =
      and_then (put_event w event) (λ w'. and_then (maybe_heartbeat (counted w') r) flushed)

  -- It stops at the first failure.
  unfoldable pub write_events : SessionWriter S → List (Event × Readings) → Written
  write_events w [] = (w, none)
  write_events w ((event, r) ∷ rest) = and_then (write_event w event r) (λ w'. write_events w' rest)

  unfoldable pub set_phase : SessionWriter S → Text → SessionWriter S
  set_phase w phase = record w { phase = some phase }

  abbrev pub write_end : SessionWriter S → SessionEnd → ℕ → Written
  write_end w end ns =
      and_then (put_event w (framing ns w.backend (session_end end)))
        (λ w'. and_then (flushed w') (λ w''. (record w'' { finished = true }, none)))

  -- What `drop` writes for a writer that nothing has finished; its errors are dropped.
  abbrev pub dropped_end : SessionWriter S → ℕ → SessionEnd
  dropped_end w ns =
      end_partial
        (other (text "recorder dropped the session without terminating it (internal bug)")) [] none
        ns w.events_emitted w.heartbeats

  -- `let _ = writeln!(…); let _ = flush()`, for a line that could be encoded.
  abbrev pub best_effort : S → Text ⊎ Text → S
  best_effort s (inl _) = s
  best_effort s (inr line) = (ops.flush (ops.writeln s line).0).0

  -- The readings are those of the end and of the event around it.
  unfoldable pub drop_writer : SessionWriter S → ℕ → ℕ → S
  drop_writer w end_ns event_ns =
      if w.finished
      then w.sink
      else best_effort w.sink
          (to_jsonl (framing event_ns w.backend (session_end (dropped_end w end_ns))))

  -- Consuming the writer drops it: after a failed end, `drop` writes its own.
  abbrev pub finish_session :
      SessionWriter S → SessionEnd → ℕ → ℕ → ℕ → S × (CoreError ⊎ SessionEnd)
  finish_session w end ns drop_ns drop_event_ns =
      let (w', e) = write_end w end ns in (drop_writer w' drop_ns drop_event_ns, result_of end e)

  unfoldable pub finish_complete :
      SessionWriter S → Option ℤ → ℕ → ℕ → ℕ → ℕ → S × (CoreError ⊎ SessionEnd)
  finish_complete w command_exit_code duration_ns ns =
      finish_session w (end_complete command_exit_code duration_ns w.events_emitted w.heartbeats) ns

  unfoldable pub finish_partial :
      SessionWriter S
      → IncompleteReason
      → List IncompleteReason
      → Option ℤ
      → ℕ
      → ℕ
      → ℕ
      → ℕ
      → S × (CoreError ⊎ SessionEnd)
  finish_partial w first_reason rest command_exit_code duration_ns ns =
      finish_session w
        (end_partial first_reason rest command_exit_code duration_ns w.events_emitted w.heartbeats)
        ns

  abbrev pub new_writer : S → Backend → SessionWriter S
  new_writer sink backend = record {
    sink = sink;
    backend = backend;
    events_emitted = 0;
    heartbeats = 0;
    last_heartbeat_events = 0;
    last_heartbeat_ms = 0;
    phase = none;
    finished = false;
  }

  abbrev started : Written → S × (CoreError ⊎ SessionWriter S)
  started (w, none) = (w.sink, inr w)
  started (w, some e) = (w.sink, inl e)

  -- `SessionWriter::start`: the writer exists only once its opening event is written.
  unfoldable pub start :
      S
      → Text
      → Text
      → Backend
      → List Text
      → Zones
      → Option HostInfo
      → S × (CoreError ⊎ SessionWriter S)
  start sink wall_clock_utc agent_version backend command zones host =
      let w = new_writer sink backend in
      started (
        and_then
          (put_event w (
            framing 0 backend (
              session_start (record {
                wall_clock_utc = wall_clock_utc;
                agent_version = agent_version;
                command = command;
                zones = zones;
                host = host;
              }))))
          flushed)
