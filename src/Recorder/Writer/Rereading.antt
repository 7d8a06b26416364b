-- ===== src/Recorder/Writer/Rereading.antt =====
-- recorder/src/session.rs: what `SessionWriter` writes is what `summarize_stream` reads.
use mathlib.Core.List.{map-append}
use mathlib.Core.Path.{subst}
use install_scope.Common.{
  ℕ, ◌%◌, ◌^◌, ◌≡◌, refl, sym, ap, ◌∙◌, ◌⊎◌, inr, true, Option, none, List, [], ◌∷◌, ◌++◌, length,
  All, All-append, arith,
}
use install_scope.Common.Text.{Text}
use install_scope.Common.Text.Lines.{IsLine}
use install_scope.Core.Errors.{ok}
use install_scope.Core.Events.{Event, Backend, Zones, HostInfo, framing, session_end, SessionEnd}
use install_scope.Recorder.Session.{nothing_seen, see, summarize_stream, with_end}
use install_scope.Recorder.Session.Written.{
  IsRead, IsObserved, written_out, see_all-snoc, summarize_stream-written_out,
}
use install_scope.Recorder.Writer.{
  Sink, SessionWriter, Readings, write_events, finish_session, start,
}
use install_scope.Recorder.Writer.Endings.{IsReliable, finish_session_held}
use install_scope.Recorder.Writer.Settings.{Setting, plain_beat, start_event, summary_of}
use install_scope.Recorder.Writer.Recorded.{start_ok, write_events_ok}

-- For a sink that keeps every line, and an encoder whose lines for the start, the heartbeats, the
-- observations and the end of this session read back as these: on an empty sink the session starts,
-- and writes the observations without an error, whatever the clock reads; and once it is finished the
-- file of its lines is summarised as having a start, as many events as were written (modulo
-- 2^64), as many heartbeats as the writer counts, and what the end says.
pub summarize_stream-finish_session :
    {S : Type 0} (ops : Sink S) (held : S → List Text) (reliable : IsReliable ops held)
    (to_jsonl : Event → Text ⊎ Text) (encode : Event → Text)
    (encodes : (e : Event) → to_jsonl e ≡ inr (encode e)) (from_str : Text → Text ⊎ Event)
    (backend : Backend)
    (beats : (ns seq so_far : ℕ)
      → IsLine from_str
          (plain_beat backend ns seq so_far)
          (encode (plain_beat backend ns seq so_far)))
    (sink : S) (wall_clock_utc agent_version : Text) (command : List Text) (zones : Zones)
    (host : Option HostInfo) (batch : List (Event × Readings)) (end : SessionEnd)
    (ns end_ns event_ns : ℕ)
    → held sink ≡ []
    → IsLine from_str
        (start_event wall_clock_utc agent_version backend command zones host)
        (encode (start_event wall_clock_utc agent_version backend command zones host))
    → All (λ b. IsObserved from_str encode b.0) batch
    → IsLine from_str
        (framing ns backend (session_end end))
        (encode (framing ns backend (session_end end)))
    → (w : SessionWriter S) × (w' : SessionWriter S) × (start ops to_jsonl sink wall_clock_utc
          agent_version backend command zones host
        ≡ (w.sink, inr w))
      × (write_events ops to_jsonl w batch ≡ (w', none))
      × (summarize_stream from_str
            (written_out (held (finish_session ops to_jsonl w' end ns end_ns event_ns).0))
          ≡ ok (record {
            events = length batch % 2 ^ 64;
            heartbeats = w'.heartbeats;
            complete = end.complete;
            incomplete_reasons = end.incomplete_reasons;
            command_exit_code = end.command_exit_code;
            has_session_start = true;
          }))
summarize_stream-finish_session {S = S} ops held reliable to_jsonl encode encodes from_str backend
      beats sink wall_clock_utc agent_version command zones host batch end ns end_ns event_ns empty
      begins observed ends =
    let setting : Setting S = record {
      ops = ops;
      held = held;
      reliable = reliable;
      to_jsonl = to_jsonl;
      encode = encode;
      encodes = encodes;
      from_str = from_str;
      backend = backend;
      beats = beats;
    } in
    let (w, begun, first, none_yet, _) =
      start_ok setting sink wall_clock_utc agent_version command zones host empty begins in
    let (w', events, written, recorded, count, _, _) =
      write_events_ok setting w _ batch first observed (omega (arith, none_yet)) in
    let last : Event = framing ns w'.backend (session_end end) in
    let lines =
      finish_session_held ops held reliable to_jsonl encode encodes w' end ns end_ns event_ns
      ∙ ap (λ l. l ++ encode last ∷ []) recorded.holds
      ∙ sym (map-append encode events (last ∷ [])) in
    let read =
      subst (λ b. IsRead from_str encode (framing ns b (session_end end)))
        (sym recorded.same_backend) (refl, ends) in
    let total : w'.events_emitted ≡ length batch % 2 ^ 64 = omega (arith, count, none_yet) in
    (
      w,
      w',
      begun,
      written,
      ap (λ l. summarize_stream from_str (written_out l)) lines
          ∙ summarize_stream-written_out from_str encode (events ++ last ∷ [])
              (with_end (summary_of w') end)
              (All-append _ events (last ∷ []) recorded.kept (read, tt))
              (see_all-snoc events last nothing_seen ∙ ap (see (session_end end)) recorded.seen)
          ∙ ap (λ n. ok (record (with_end (summary_of w') end) { events = n })) total,
    )
