-- ===== src/Recorder/Writer/Recorded.antt =====
-- recorder/src/session.rs: the events in the sink of a `SessionWriter`, and the summary that it keeps of them.
use mathlib.Core.List.{map-append, append-nil, append_assoc}
use mathlib.Core.Path.{subst}
use install_scope.Common.{
  suc, map, ◌+◌, ◌%◌, ◌^◌, ◌<◌, ◌≡◌, refl, sym, ap, ap₂, ◌∙◌, inl, inr, false, Option, none, List,
  [], ◌∷◌, ◌++◌, length, All, All-append, arith, Bool-cases, incr_u64,
}
use install_scope.Common.Text.{Text}
use install_scope.Common.Text.Lines.{IsLine}
use install_scope.Core.Events.{is_framing, Event, Zones, HostInfo, framing, heartbeat}
use install_scope.Recorder.Session.{nothing_seen, see}
use install_scope.Recorder.Session.Written.{IsRead, IsObserved, see_all-snoc}
use install_scope.Recorder.Writer.{
  SessionWriter, Readings, Written, and_then, flushed, beaten, beat_event, write_heartbeat, is_due,
  maybe_heartbeat, counted, write_event, write_events, new_writer, start, started,
}
use install_scope.Recorder.Writer.Endings.{put_event_ok, flushed_ok, with_line, with_line_held}
use install_scope.Recorder.Writer.Spacing.{
  after_event, gap_after, AreSpaced-snoc, gap_after-snoc, observed_in, observed_in-append,
  observed_in-snoc, IsPacing, IsPaced, IsPacing-observed, early_gap,
}
use install_scope.Recorder.Writer.Settings.{
  plain_beat, start_event, see_observed, summary_of, Setting, IsRecorded,
}

-- A heartbeat starts the count again.
beat_IsPaced :
    {S : Type 0} (w w' : SessionWriter S) (events : List Event) (e : Event)
    → IsPacing w events
    → after_event (gap_after 0 events) e.payload ≡ 0
    → (w'.last_heartbeat_events ≡ w.events_emitted) × (w'.events_emitted ≡ w.events_emitted)
    → IsPaced w' (events ++ e ∷ [])
beat_IsPaced w w' events e p none_since (last, emitted) =
    let gap = gap_after-snoc 0 events e ∙ none_since in
    (
      record {
        counts = omega (arith, gap, last, emitted);
        spaced = AreSpaced-snoc 0 events e p.spaced (omega (arith, none_since));
      },
      omega (arith, gap),
    )

module _ {S : Type 0} (setting : Setting S) where
  open setting use {ops, held, reliable, to_jsonl, encode, encodes, from_str, backend, beats}

  with_event :
      (w w' : SessionWriter S) (events : List Event) (e : Event)
      → IsRecorded setting w events
      → held w'.sink ≡ held w.sink ++ encode e ∷ []
      → IsRead from_str encode e
      → (w'.backend ≡ w.backend) × (w'.phase ≡ w.phase)
      → see e.payload (record { summary = summary_of w; saw_end = false })
        ≡ record { summary = summary_of w'; saw_end = false }
      → IsRecorded setting w' (events ++ e ∷ [])
  with_event w w' events e r grown read (b, p) h = record {
    holds = grown ∙ ap (λ l. l ++ encode e ∷ []) r.holds ∙ sym (map-append encode events (e ∷ []));
    kept = All-append _ events (e ∷ []) r.kept (read, tt);
    same_backend = b ∙ r.same_backend;
    no_phase = p ∙ r.no_phase;
    seen = see_all-snoc events e nothing_seen ∙ ap (see e.payload) r.seen ∙ h;
  }

  flushed-IsRecorded :
      (w : SessionWriter S) (events : List Event)
      → IsRecorded setting w events
      → IsRecorded setting (record w { sink = (ops.flush w.sink).0 }) events
  flushed-IsRecorded w events r = record {
    holds = reliable.still_held w.sink ∙ r.holds;
    kept = r.kept;
    seen = r.seen;
    same_backend = r.same_backend;
    no_phase = r.no_phase;
  }

  beat-IsRead :
      (w : SessionWriter S) (events : List Event) (r : Readings)
      → IsRecorded setting w events
      → IsRead from_str encode (beat_event ops to_jsonl (beaten ops to_jsonl w r) r)
  beat-IsRead w events r recorded =
      let beat = beaten ops to_jsonl w r in
      let event : plain_beat backend r.beat_ns beat.heartbeats beat.events_emitted
          ≡ beat_event ops to_jsonl beat r =
        ap₂
          (λ b p. framing r.beat_ns b (
            heartbeat
              (record { seq = beat.heartbeats; events_so_far = beat.events_emitted; phase = p })))
          (sym recorded.same_backend) (sym recorded.no_phase) in
      (
        refl,
        subst (λ e. IsLine from_str e (encode e)) event
            (beats r.beat_ns beat.heartbeats beat.events_emitted),
      )

  write_heartbeat_ok :
      (w : SessionWriter S) (r : Readings)
      → write_heartbeat ops to_jsonl w r ≡ (
        record (beaten ops to_jsonl w r) {
          sink =
              with_line ops held reliable to_jsonl encode encodes w.sink
                (encode (beat_event ops to_jsonl (beaten ops to_jsonl w r) r));
        },
        none,
      )
  unfolding write_heartbeat
  write_heartbeat_ok w r =
      let beat = beaten ops to_jsonl w r in
      let event = beat_event ops to_jsonl beat r in
      ap (λ m. and_then ops to_jsonl m (flushed ops to_jsonl))
        (put_event_ok ops held reliable to_jsonl encode encodes beat event)
      ∙ flushed_ok ops held reliable to_jsonl encode encodes
          (record beat { sink = (ops.writeln w.sink (encode event)).0 })

  -- Perhaps a heartbeat: it fails never, and keeps the count of events.
  maybe_heartbeat_ok :
      (w : SessionWriter S) (events : List Event) (r : Readings)
      → IsRecorded setting w events
      → (w' : SessionWriter S) × (events' : List Event) × (maybe_heartbeat ops to_jsonl w r
          ≡ (w', none))
        × IsRecorded setting w' events'
        × (w'.events_emitted ≡ w.events_emitted)
        × (observed_in events' ≡ observed_in events)
        × (IsPacing w events → w.events_emitted < 2 ^ 64 → IsPaced w' events')
  unfolding maybe_heartbeat is_framing
  maybe_heartbeat_ok w events r recorded = elim (Bool-cases (is_due ops to_jsonl w r)) [
    | inl due ↦
        let beat = beaten ops to_jsonl w r in
        let event = beat_event ops to_jsonl beat r in
        let sink = with_line ops held reliable to_jsonl encode encodes w.sink (encode event) in
        let w' : SessionWriter S = record beat { sink = sink } in
        (
          w',
          events ++ event ∷ [],
          rw due (write_heartbeat_ok w r),
          with_event w w' events event recorded
              (with_line_held ops held reliable to_jsonl encode encodes w.sink (encode event))
              (beat-IsRead w events r recorded) (refl, refl) refl,
          refl,
          observed_in-append events (event ∷ []) ∙ append-nil (observed_in events),
          λ p small. beat_IsPaced w w' events event p refl (refl, refl),
        )
    | inr early ↦ (
      w,
      events,
      rw early refl,
      recorded,
      refl,
      refl,
      λ p small. (p, early_gap ops to_jsonl w r events p small early),
    )
  ]

  -- The writer after an event, whose line is written before any heartbeat.
  abbrev with_counted : SessionWriter S → Event → SessionWriter S
  with_counted w e = counted ops to_jsonl (record w { sink = (ops.writeln w.sink (encode e)).0 })

  write_event_ok :
      (w : SessionWriter S) (events : List Event) (e : Event) (r : Readings)
      → IsRecorded setting w events
      → IsObserved from_str encode e
      → (w' : SessionWriter S) × (events' : List Event) × (write_event ops to_jsonl w e r
          ≡ (w', none))
        × IsRecorded setting w' events'
        × (w'.events_emitted ≡ incr_u64 w.events_emitted)
        × (observed_in events' ≡ observed_in events ++ e ∷ [])
        × (IsPaced w events → w.events_emitted + 1 < 2 ^ 64 → IsPaced w' events')
  unfolding write_event incr_u64
  write_event_ok w events e r recorded (observed, read) =
      let beating : SessionWriter S → Written ops to_jsonl = λ v.
        and_then ops to_jsonl (maybe_heartbeat ops to_jsonl (counted ops to_jsonl v) r)
          (flushed ops to_jsonl) in
      let one =
        with_event w (with_counted w e) events e recorded (reliable.kept w.sink (encode e)) read
          (refl, refl) (see_observed e.payload _ observed) in
      let (w', events', beat, now, count, seen, paced) =
        maybe_heartbeat_ok (with_counted w e) (events ++ e ∷ []) r one in
      (
        record w' { sink = (ops.flush w'.sink).0 },
        events',
        ap (λ m. and_then ops to_jsonl m beating)
              (put_event_ok ops held reliable to_jsonl encode encodes w e)
            ∙ ap (λ m. and_then ops to_jsonl m (flushed ops to_jsonl)) beat
            ∙ flushed_ok ops held reliable to_jsonl encode encodes w',
        flushed-IsRecorded w' events' now,
        count,
        seen ∙ observed_in-snoc events e observed,
        λ p small.
            let one_more : incr_u64 w.events_emitted ≡ suc w.events_emitted =
              omega (arith, small) in
            let (q, _) = IsPacing-observed w (with_counted w e) events e p observed refl one_more in
            let (done, few) = paced q (omega (arith, small, one_more)) in
            (record { counts = done.counts; spaced = done.spaced }, few),
      )

  pub write_events_ok :
      (w : SessionWriter S) (events : List Event) (batch : List (Event × Readings))
      → IsRecorded setting w events
      → All (λ b. IsObserved from_str encode b.0) batch
      → w.events_emitted < 2 ^ 64
      → (w' : SessionWriter S) × (events' : List Event) × (write_events ops to_jsonl w batch
          ≡ (w', none))
        × IsRecorded setting w' events'
        × (w'.events_emitted ≡ (w.events_emitted + length batch) % 2 ^ 64)
        × (observed_in events' ≡ observed_in events ++ map (λ b. b.0) batch)
        × (IsPaced w events → w.events_emitted + length batch < 2 ^ 64 → IsPaced w' events')
  unfolding write_events incr_u64
  write_events_ok w events [] recorded _ small = (
    w,
    events,
    refl,
    recorded,
    omega (arith, small),
    sym (append-nil (observed_in events)),
    λ p _. p,
  )
  write_events_ok w events ((e, r) ∷ batch) recorded (observed, h) small =
      let (w1, events1, first, now, count, seen, paced) =
        write_event_ok w events e r recorded observed in
      let (w2, events2, later, done, count', seen', paced') =
        write_events_ok w1 events1 batch now h (omega (arith, count)) in
      (
        w2,
        events2,
        ap (λ m. and_then ops to_jsonl m (λ v. write_events ops to_jsonl v batch)) first ∙ later,
        done,
        omega (arith, count, count'),
        seen'
            ∙ ap (λ l. l ++ map (λ b. b.0) batch) seen
            ∙ append_assoc (observed_in events) (e ∷ []) (map (λ b. b.0) batch),
        λ p fits. paced' (paced p (omega (arith, fits))) (omega (arith, fits, count)),
      )

  pub start_ok :
      (sink : S) (wall_clock_utc agent_version : Text) (command : List Text) (zones : Zones)
      (host : Option HostInfo)
      → held sink ≡ []
      → IsLine from_str
          (start_event wall_clock_utc agent_version backend command zones host)
          (encode (start_event wall_clock_utc agent_version backend command zones host))
      → (w : SessionWriter S) × (start ops to_jsonl sink wall_clock_utc agent_version backend
            command zones host
          ≡ (w.sink, inr w))
        × IsRecorded setting w
            (start_event wall_clock_utc agent_version backend command zones host ∷ [])
        × (w.events_emitted ≡ 0)
        × IsPaced w (start_event wall_clock_utc agent_version backend command zones host ∷ [])
  unfolding start
  start_ok sink wall_clock_utc agent_version command zones host empty read =
      let event = start_event wall_clock_utc agent_version backend command zones host in
      let fresh : SessionWriter S = new_writer ops to_jsonl sink backend in
      let line = with_line ops held reliable to_jsonl encode encodes sink (encode event) in
      let w : SessionWriter S = record fresh { sink = line } in
      (
        w,
        ap (λ m. started ops to_jsonl (and_then ops to_jsonl m (flushed ops to_jsonl)))
              (put_event_ok ops held reliable to_jsonl encode encodes fresh event)
            ∙ ap (started ops to_jsonl) (
                flushed_ok ops held reliable to_jsonl encode encodes
                  (record fresh { sink = (ops.writeln sink (encode event)).0 })),
        record {
          holds =
              with_line_held ops held reliable to_jsonl encode encodes sink (encode event)
              ∙ ap (λ l. l ++ encode event ∷ []) empty;
          kept = ((refl, read), tt);
          seen = refl;
          same_backend = refl;
          no_phase = refl;
        },
        refl,
        (record { counts = refl; spaced = (omega arith, tt) }, omega arith),
      )
