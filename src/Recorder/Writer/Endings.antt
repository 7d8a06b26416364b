-- ===== src/Recorder/Writer/Endings.antt =====
-- recorder/src/session.rs: how a session ends, on a sink that keeps every line.
use install_scope.Common.{
  ℕ, ◌≡◌, refl, ap, ◌∙◌, ◌⊎◌, inr, true, false, Option, none, some, List, [], ◌∷◌, ◌++◌,
  if◌then◌else◌, arith,
}
use install_scope.Common.Text.{Text}
use install_scope.Core.Events.{Event, framing, session_end, SessionEnd}
use install_scope.Recorder.Writer.{
  Sink, SessionWriter, Written, and_then, after_sink, flushed, put_line, put_event, write_end,
  dropped_end, best_effort, drop_writer, finish_session, result_of,
}

-- A sink that keeps the lines it is given, and loses nothing in flushing.
pub record IsReliable {S : Type 0} (ops : Sink S) (held : S → List Text) : Type 0 where
  pub written : (s : S) (line : Text) → (ops.writeln s line).1 ≡ none
  pub kept : (s : S) (line : Text) → held (ops.writeln s line).0 ≡ held s ++ line ∷ []
  pub flushed : (s : S) → (ops.flush s).1 ≡ none
  pub still_held : (s : S) → held (ops.flush s).0 ≡ held s

module _ {S : Type 0} (ops : Sink S) (held : S → List Text) (reliable : IsReliable ops held)
    (to_jsonl : Event → Text ⊎ Text) (encode : Event → Text)
    (encodes : (e : Event) → to_jsonl e ≡ inr (encode e)) where
  after_sink_ok :
      (w : SessionWriter S) (r : S × Option Text)
      → r.1 ≡ none
      → after_sink ops to_jsonl w r ≡ (record w { sink = r.0 }, none)
  after_sink_ok w (s, none) e = refl
  after_sink_ok w (s, some _) e = absurd (ground arith)

  pub put_event_ok :
      (w : SessionWriter S) (event : Event)
      → put_event ops to_jsonl w event
        ≡ (record w { sink = (ops.writeln w.sink (encode event)).0 }, none)
  put_event_ok w event =
      ap (put_line ops to_jsonl w) (encodes event)
      ∙ after_sink_ok w (ops.writeln w.sink (encode event)) (reliable.written w.sink (encode event))

  pub flushed_ok :
      (w : SessionWriter S)
      → flushed ops to_jsonl w ≡ (record w { sink = (ops.flush w.sink).0 }, none)
  flushed_ok w = after_sink_ok w (ops.flush w.sink) (reliable.flushed w.sink)

  -- The sink with one more line.
  abbrev pub with_line : S → Text → S
  with_line s line = (ops.flush (ops.writeln s line).0).0

  pub with_line_held : (s : S) (line : Text) → held (with_line s line) ≡ held s ++ line ∷ []
  with_line_held s line = reliable.still_held (ops.writeln s line).0 ∙ reliable.kept s line

  pub write_end_ok :
      (w : SessionWriter S) (end : SessionEnd) (ns : ℕ)
      → write_end ops to_jsonl w end ns ≡ (
        record w {
          sink = with_line w.sink (encode (framing ns w.backend (session_end end)));
          finished = true;
        },
        none,
      )
  write_end_ok w end ns =
      let event = framing ns w.backend (session_end end) in
      let close : SessionWriter S → Written ops to_jsonl =
        λ w''. (record w'' { finished = true }, none) in
      ap
        (λ m. and_then ops to_jsonl m (λ w'. and_then ops to_jsonl (flushed ops to_jsonl w') close))
        (put_event_ok w event)
      ∙ ap (λ m. and_then ops to_jsonl m close)
          (flushed_ok (record w { sink = (ops.writeln w.sink (encode event)).0 }))

  pub dropped_ok :
      (w : SessionWriter S) (end_ns event_ns : ℕ)
      → held (drop_writer ops to_jsonl w end_ns event_ns) ≡ (
          if w.finished
          then held w.sink
          else held w.sink
            ++ encode (framing event_ns w.backend (session_end (dropped_end ops to_jsonl w end_ns)))
              ∷ [])
  unfolding drop_writer
  dropped_ok w end_ns event_ns =
      let event = framing event_ns w.backend (session_end (dropped_end ops to_jsonl w end_ns)) in
      elim w.finished
        as (λ b.
          held (if b then w.sink else best_effort ops to_jsonl w.sink (to_jsonl event))
          ≡ (if b then held w.sink else held w.sink ++ encode event ∷ [])) [
            | true ↦ refl
            | false ↦
                ap (λ l. held (best_effort ops to_jsonl w.sink l)) (encodes event)
                ∙ with_line_held w.sink (encode event)
          ]

  -- What finishing a session leaves in the sink.
  pub finish_session_held :
      (w : SessionWriter S) (end : SessionEnd) (ns end_ns event_ns : ℕ)
      → held (finish_session ops to_jsonl w end ns end_ns event_ns).0
        ≡ held w.sink ++ encode (framing ns w.backend (session_end end)) ∷ []
  finish_session_held w end ns end_ns event_ns =
      ap (λ m. held (drop_writer ops to_jsonl m.0 end_ns event_ns)) (write_end_ok w end ns)
      ∙ dropped_ok _ end_ns event_ns
      ∙ with_line_held w.sink (encode (framing ns w.backend (session_end end)))

  -- For a sink that keeps every line and an encoder that fails on none: finishing a session returns its
  -- end and appends it as the one last line, and nothing after it; dropping a session appends one
  -- partial end if it was not finished, and nothing if it was.
  pub finish_session-ends_once :
      (w : SessionWriter S) (end : SessionEnd) (ns end_ns event_ns : ℕ)
      → (held (finish_session ops to_jsonl w end ns end_ns event_ns).0
          ≡ held w.sink ++ encode (framing ns w.backend (session_end end)) ∷ [])
        × ((finish_session ops to_jsonl w end ns end_ns event_ns).1 ≡ inr end)
        × (held (drop_writer ops to_jsonl w end_ns event_ns) ≡ (
            if w.finished
            then held w.sink
            else held w.sink
              ++ encode
                  (framing event_ns w.backend (session_end (dropped_end ops to_jsonl w end_ns)))
                ∷ []))
  finish_session-ends_once w end ns end_ns event_ns =
      let ended = write_end_ok w end ns in
      (
        finish_session_held w end ns end_ns event_ns,
        ap (λ m. result_of end m.1) ended,
        dropped_ok w end_ns event_ns,
      )
