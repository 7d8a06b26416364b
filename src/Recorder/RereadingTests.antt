-- ===== src/Recorder/RereadingTests.antt =====
-- A session that is written and read back, with an encoding of its events.
use mathlib.Core.Path.{ap₂}
use install_scope.Common.{
  map, ◌<◌, ℕ, ◌+◌, ◌-◌, ◌≡◌, refl, ap, ◌∙◌, ◌⊎◌, inl, inr, true, false, none, some, List, [], ◌∷◌,
  ◌==◌, if◌then◌else◌, arith,
}
use install_scope.Common.Int.{pos}
use install_scope.Common.Text.{Text, text, trim, is_whitespace, strip_suffix}
use install_scope.Common.Text.Lines.{IsLine}
use install_scope.Core.Errors.{ok}
use install_scope.Core.Events.{
  Event, Payload, strace, framing, observed, meta_observed, session_start, session_end, heartbeat,
  end_complete, SessionEnd, is_framing, fs_write, fs_read, net_connect, dns_query, proc_spawn,
  success, no_zones,
}
use install_scope.Recorder.Session.{summarize_stream}
use install_scope.Recorder.Session.Written.{IsObserved, written_out}
use install_scope.Recorder.Writer.{SessionWriter, Readings, start, write_events, finish_session}
use install_scope.Recorder.Writer.Settings.{Setting, plain_beat, start_event}
use install_scope.Recorder.Writer.Spacing.{gap_after, AreSpaced, observed_in}
use install_scope.Recorder.Writer.Pace.{write_events-AreSpaced}
use install_scope.Recorder.Writer.Rereading.{summarize_stream-finish_session}
use install_scope.Recorder.WriterTests.{line_sink, all_lines, line_sink-IsReliable}

abbrev begun : Event
begun = start_event (text "now") (text "1") strace [] no_zones none

abbrev seen_spawn : Event
seen_spawn =
    observed (meta_observed 3 8 (text "execve") strace)
      (proc_spawn (record { bin = none; argv = []; argv_truncated = false; outcome = success }))

abbrev ending : SessionEnd
ending = end_complete (some (pos 0)) 9 1 0

abbrev ended : Event
ended = framing 9 strace (session_end ending)

-- Each kind of event by a letter, and a heartbeat with its numbers as characters.
abbrev letters_of : ℕ → Payload → Text
letters_of ns (session_start _) = text "s"
letters_of ns (session_end _) = text "e"
letters_of ns (heartbeat b) = b'h' ∷ (ns + 32) ∷ (b.seq + 32) ∷ (b.events_so_far + 32) ∷ b'h' ∷ []
letters_of ns (proc_spawn _) = text "p"
letters_of ns (fs_write _) = text "o"
letters_of ns (fs_read _) = text "o"
letters_of ns (net_connect _) = text "o"
letters_of ns (dns_query _) = text "o"

abbrev in_letters : Event → Text
in_letters e = letters_of e.meta.ts_ns e.payload

abbrev from_letters : Text → Text ⊎ Event
from_letters [] = inl []
from_letters (c ∷ []) =
    if c == b's' then inr begun else if c == b'e' then inr ended else inr seen_spawn
from_letters (_ ∷ _ ∷ []) = inl []
from_letters (_ ∷ _ ∷ _ ∷ []) = inl []
from_letters (_ ∷ ns ∷ seq ∷ so_far ∷ _) =
    inr (plain_beat strace (ns - 32) (seq - 32) (so_far - 32))

beat_line :
    (ns seq so_far : ℕ)
    → IsLine from_letters
        (plain_beat strace ns seq so_far)
        (in_letters (plain_beat strace ns seq so_far))
unfolding trim is_whitespace strip_suffix
beat_line ns seq so_far = record {
  read_back =
      let back = λ (n : ℕ). let e : n + 32 - 32 ≡ n = omega arith in e in
      ap (λ n. inr (plain_beat strace n (seq + 32 - 32) (so_far + 32 - 32))) (back ns)
      ∙ ap₂ (λ m n. inr (plain_beat strace ns m n)) (back seq) (back so_far);
  unbroken = (refl, (ground arith, (ground arith, (ground arith, (refl, tt)))));
  visible = λ h. ground arith;
  no_return = refl;
}

begun_line : IsLine from_letters begun (in_letters begun)
unfolding trim is_whitespace strip_suffix
begun_line = record {
  read_back = refl;
  unbroken = (refl, tt);
  visible = λ h. ground arith;
  no_return = refl;
}

ended_line : IsLine from_letters ended (in_letters ended)
unfolding trim is_whitespace strip_suffix
ended_line = record {
  read_back = refl;
  unbroken = (refl, tt);
  visible = λ h. ground arith;
  no_return = refl;
}

spawn_line : IsLine from_letters seen_spawn (in_letters seen_spawn)
unfolding trim is_whitespace strip_suffix
spawn_line = record {
  read_back = refl;
  unbroken = (refl, tt);
  visible = λ h. ground arith;
  no_return = refl;
}

abbrev lettered : Event → Text ⊎ Text
lettered e = inr (in_letters e)

-- The spawn comes late, so that a heartbeat follows it.
abbrev late_spawn : List (Event × Readings)
late_spawn = (seen_spawn, record { due_ms = 2500; beat_ms = 2500; beat_ns = 2500000000 }) ∷ []

seen_spawn-IsObserved : IsObserved from_letters in_letters seen_spawn
unfolding is_framing
seen_spawn-IsObserved = (refl, (refl, spawn_line))

summarize_stream-finish_session_example :
    (w : SessionWriter (List Text)) × (w' : SessionWriter (List Text)) × (start line_sink lettered
        []
        (text "now")
        (text "1")
        strace
        []
        no_zones
        none
      ≡ (w.sink, inr w))
    × (write_events line_sink lettered w late_spawn ≡ (w', none))
    × (summarize_stream from_letters
          (written_out (all_lines (finish_session line_sink lettered w' ending 9 10 11).0))
        ≡ ok (record {
          events = 1;
          heartbeats = w'.heartbeats;
          complete = true;
          incomplete_reasons = [];
          command_exit_code = some (pos 0);
          has_session_start = true;
        }))
summarize_stream-finish_session_example =
    summarize_stream-finish_session line_sink all_lines line_sink-IsReliable lettered in_letters
      (λ e. refl) from_letters strace beat_line [] (text "now") (text "1") [] no_zones none
      late_spawn ending 9 10 11 refl begun_line (seen_spawn-IsObserved, tt) ended_line

abbrev lettered_lines : Setting (List Text)
lettered_lines = record {
  ops = line_sink;
  held = all_lines;
  reliable = line_sink-IsReliable;
  to_jsonl = lettered;
  encode = in_letters;
  encodes = λ e. refl;
  from_str = from_letters;
  backend = strace;
  beats = beat_line;
}

write_events-AreSpaced_example :
    (w : SessionWriter (List Text)) × (w' : SessionWriter (List Text)) × (events : List Event)
    × (start line_sink lettered [] (text "now") (text "1") strace [] no_zones none
        ≡ (w.sink, inr w))
    × (write_events line_sink lettered w late_spawn ≡ (w', none))
    × (all_lines w'.sink ≡ map in_letters events)
    × (observed_in events ≡ seen_spawn ∷ [])
    × AreSpaced 0 events
    × (gap_after 0 events < 2000)
write_events-AreSpaced_example =
    write_events-AreSpaced lettered_lines [] (text "now") (text "1") [] no_zones none late_spawn
      refl begun_line (seen_spawn-IsObserved, tt) (omega arith)
