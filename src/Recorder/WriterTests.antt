-- ===== src/Recorder/WriterTests.antt =====
-- Tests of the session writer on a list of lines, and an instance of each theorem about it.
use install_scope.Common.{incr_u64, ◌≡◌, refl, ◌⊎◌, inr, none, List, [], ◌∷◌, ◌++◌, if◌then◌else◌}
use install_scope.Common.Text.{Text, text}
use install_scope.Core.Events.{Event, strace, framing, session_end, op, end_complete, heartbeat}
use install_scope.Recorder.Writer.{
  write_heartbeat, maybe_heartbeat, Sink, SessionWriter, Readings, new_writer, write_event,
  finish_session, drop_writer, dropped_end,
}
use install_scope.Recorder.Writer.Endings.{IsReliable, finish_session-ends_once}

abbrev pub line_sink : Sink (List Text)
line_sink = record {
  writeln = λ lines line. (lines ++ line ∷ [], none);
  flush = λ lines. (lines, none);
}

-- An encoder that writes the kind of the event.
abbrev encode_op : Event → Text
encode_op event = op event.payload

abbrev encoded : Event → Text ⊎ Text
encoded event = inr (encode_op event)

abbrev pub all_lines : List Text → List Text
all_lines lines = lines

pub line_sink-IsReliable : IsReliable line_sink all_lines
line_sink-IsReliable = record {
  written = λ s line. refl;
  kept = λ s line. refl;
  flushed = λ s. refl;
  still_held = λ s. refl;
}

abbrev fresh : SessionWriter (List Text)
fresh = new_writer line_sink encoded [] strace

abbrev beat_event_sample : Event
beat_event_sample =
    framing 1 strace (heartbeat (record { seq = 1; events_so_far = 0; phase = none }))

abbrev at_once : Readings
at_once = record { due_ms = 1; beat_ms = 1; beat_ns = 1000000 }

abbrev late : Readings
late = record { due_ms = 2500; beat_ms = 2500; beat_ns = 2500000000 }

-- After a silence of more than two seconds a heartbeat follows the event.
late_heartbeat :
    (write_event line_sink encoded fresh beat_event_sample late).0.sink
    ≡ text "heartbeat" ∷ text "heartbeat" ∷ []
unfolding write_event maybe_heartbeat incr_u64 write_heartbeat op
late_heartbeat = refl

finish_session-ends_once_example :
    (all_lines (finish_session line_sink encoded fresh (end_complete none 5 0 0) 5 6 7).0
      ≡ all_lines fresh.sink
        ++ encode_op (framing 5 fresh.backend (session_end (end_complete none 5 0 0))) ∷ [])
    × ((finish_session line_sink encoded fresh (end_complete none 5 0 0) 5 6 7).1
        ≡ inr (end_complete none 5 0 0))
    × (all_lines (drop_writer line_sink encoded fresh 6 7) ≡ (
        if fresh.finished
        then all_lines fresh.sink
        else all_lines fresh.sink
          ++ encode_op
              (framing 7 fresh.backend (session_end (dropped_end line_sink encoded fresh 6)))
            ∷ []))
finish_session-ends_once_example =
    finish_session-ends_once line_sink all_lines line_sink-IsReliable encoded encode_op (λ e. refl)
      fresh (end_complete none 5 0 0) 5 6 7
