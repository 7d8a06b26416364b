-- ===== src/Recorder/Session/Summaries.antt =====
-- recorder/src/session.rs: `summarize_stream`, against the events that the stream reads as.
use mathlib.Core.Path.{subst⁻¹}
use install_scope.Common.{
  ℕ, suc, ◌+◌, ◌%◌, ◌^◌, ◌<◌, ◌≡◌, refl, sym, ap, ◌∙◌, ◌⊎◌, inl, inr, true, false, List, [], ◌∷◌,
  not, if◌then◌else◌, arith, Bool-cases, not_false, incr_u64,
}
use install_scope.Common.Text.{Text, trim}
use install_scope.Core.Errors.{CoreError, missing_session_end, Fallible, ok, err, ◌>>=◌}
use install_scope.Core.Events.{
  Event, Payload, session_start, fs_write, fs_read, net_connect, dns_query, proc_spawn, heartbeat,
  session_end, SessionEnd, is_framing,
}
use install_scope.Core.Rules.{session_completeness}
use install_scope.Core.Rules.Completeness.{
  HasNoEnd, LastEnd, LastEnd-unique, last_here, last_later, is_end, session_completeness_iff,
}
use install_scope.Core.Rules.Trust.{observed_events}
use install_scope.Recorder.Session.{
  from_jsonl, lines, StreamSummary, is_partial, Seen, nothing_seen, see, is_blank, summarize_lines,
  summarize_stream,
}

module _ (from_str : Text → Text ⊎ Event) where
  -- The events that the lines read as, blank lines apart, or the first error.
  abbrev pub read_lines : ℕ → List Text → Fallible (List Event)
  read_lines index [] = ok []
  read_lines index (line ∷ rest) =
      let others = read_lines (suc index) rest in
      if is_blank (trim line)
      then others
      else from_jsonl from_str line (suc index) >>= λ event.
          others >>= λ events. ok (event ∷ events)

abbrev pub see_all : List Event → Seen → Seen
see_all [] seen = seen
see_all (event ∷ events) seen = see_all events (see event.payload seen)

bind_ok :
    (m : Fallible (List Event)) (event : Event) (seen : Seen)
    → ((m >>= λ events. ok (event ∷ events)) >>= λ events. ok (see_all events seen))
      ≡ (m >>= λ events. ok (see_all events (see event.payload seen)))
bind_ok (ok events) event seen = refl
bind_ok (err e) event seen = refl

one_line :
    (m : Fallible Event) (others : Fallible (List Event)) (seen : Seen)
    (loop : Seen → Fallible Seen)
    → ((seen' : Seen) → loop seen' ≡ (others >>= λ events. ok (see_all events seen')))
    → (m >>= λ event. loop (see event.payload seen)) ≡ (
        (m >>= λ event. others >>= λ events. ok (event ∷ events)) >>= λ events.
        ok (see_all events seen))
one_line (ok event) others seen loop h =
    h (see event.payload seen) ∙ sym (bind_ok others event seen)
one_line (err e) others seen loop h = refl

-- The loop reads all lines and sees their events in order.
summarize_lines-read_lines :
    (from_str : Text → Text ⊎ Event) (index : ℕ) (rest : List Text) (seen : Seen)
    → summarize_lines from_str index rest seen
      ≡ (read_lines from_str index rest >>= λ events. ok (see_all events seen))
summarize_lines-read_lines from_str index [] seen = refl
summarize_lines-read_lines from_str index (line ∷ rest) seen =
    elim (Bool-cases (is_blank (trim line))) [
      | inl blank ↦ rw blank (summarize_lines-read_lines from_str (suc index) rest seen)
      | inr full ↦ rw full (
          one_line (from_jsonl from_str line (suc index)) (read_lines from_str (suc index) rest)
            seen (summarize_lines from_str (suc index) rest)
            (summarize_lines-read_lines from_str (suc index) rest))
    ]

-- What the end of a recording leaves in the summary.
abbrev pub IsOf : SessionEnd → StreamSummary → Type 0
IsOf end s =
    (s.complete ≡ end.complete)
    × (s.incomplete_reasons ≡ end.incomplete_reasons)
    × (s.command_exit_code ≡ end.command_exit_code)

-- One event: an end, or nothing that says how the recording ended.
see_cases :
    (payload : Payload) (seen : Seen)
    → ((end : SessionEnd) × (payload ≡ session_end end)
        × IsOf end (see payload seen).summary
        × ((see payload seen).saw_end ≡ true))
      ⊎ ((is_end payload ≡ false)
          × ((see payload seen).saw_end ≡ seen.saw_end)
          × ((end : SessionEnd) → IsOf end seen.summary → IsOf end (see payload seen).summary))
see_cases (session_end end) seen = inl (end, refl, (refl, refl, refl), refl)
see_cases (session_start _) seen = inr (refl, refl, λ end h. h)
see_cases (heartbeat _) seen = inr (refl, refl, λ end h. h)
see_cases (fs_write _) seen = inr (refl, refl, λ end h. h)
see_cases (fs_read _) seen = inr (refl, refl, λ end h. h)
see_cases (net_connect _) seen = inr (refl, refl, λ end h. h)
see_cases (dns_query _) seen = inr (refl, refl, λ end h. h)
see_cases (proc_spawn _) seen = inr (refl, refl, λ end h. h)

-- All events: the last end, or none.
see_all_cases :
    (events : List Event) (seen : Seen)
    → ((end : SessionEnd) × LastEnd end events
        × IsOf end (see_all events seen).summary
        × ((see_all events seen).saw_end ≡ true))
      ⊎ (HasNoEnd events
          × ((see_all events seen).saw_end ≡ seen.saw_end)
          × ((end : SessionEnd) → IsOf end seen.summary → IsOf end (see_all events seen).summary))
see_all_cases [] seen = inr (tt, refl, λ end h. h)
see_all_cases (e ∷ rest) seen = elim (see_all_cases rest (see e.payload seen)) [
  | inl (end, last, is, saw) ↦ inl (end, last_later last, is, saw)
  | inr (no_end, saw, kept) ↦ elim (see_cases e.payload seen) [
    | inl (end, p, is, saw_here) ↦ inl (end, last_here p no_end, kept end is, saw ∙ saw_here)
    | inr (not_end, saw_before, kept_here) ↦
        inr ((not_end, no_end), saw ∙ saw_before, λ end h. kept end (kept_here end h))
  ]
]

see_events :
    (payload : Payload) (seen : Seen)
    → (see payload seen).summary.events
      ≡ (if is_framing payload then seen.summary.events else incr_u64 seen.summary.events)
unfolding is_framing
see_events (session_end _) seen = refl
see_events (session_start _) seen = refl
see_events (heartbeat _) seen = refl
see_events (fs_write _) seen = refl
see_events (fs_read _) seen = refl
see_events (net_connect _) seen = refl
see_events (dns_query _) seen = refl
see_events (proc_spawn _) seen = refl

see_all_events :
    (events : List Event) (seen : Seen)
    → seen.summary.events < 2 ^ 64
    → (see_all events seen).summary.events ≡ (seen.summary.events + observed_events events) % 2 ^ 64
unfolding incr_u64
see_all_events [] seen h = omega arith
see_all_events (e ∷ rest) seen h =
    ground (arith, see_events e.payload seen, see_all_events rest (see e.payload seen))

completeness_agrees :
    (events : List Event) (end : SessionEnd)
    → LastEnd end events
    → not end.complete ≡ (session_completeness events).0
completeness_agrees events end last =
    let whole = session_completeness_iff events in
    elim (Bool-cases end.complete) [
      | inl yes_whole ↦ ap not yes_whole ∙ sym (whole.1 (end, last, yes_whole))
      | inr broken ↦
          ap not broken
          ∙ sym (
              not_false (session_completeness events).0 (λ e.
                let (end', last', complete) = whole.0 e in
                let same : end ≡ end' = ground (arith, LastEnd-unique end end' events last last') in
                ground arith))
    ]

-- What a summary says of the events that were read.
pub record Summarizes (events : List Event) (s : StreamSummary) : Type 0 where
  pub end : SessionEnd
  pub last : LastEnd end events
  pub ended : IsOf end s
  pub counted : s.events ≡ observed_events events % 2 ^ 64
  pub agrees : is_partial s ≡ (session_completeness events).0

summary_of_seen :
    (events : List Event)
    → (HasNoEnd events × ((see_all events nothing_seen).saw_end ≡ false))
      ⊎ (((see_all events nothing_seen).saw_end ≡ true)
          × Summarizes events (see_all events nothing_seen).summary)
summary_of_seen events = elim (see_all_cases events nothing_seen) [
  | inl (end, last, is, saw) ↦ inr (
    saw,
    record {
      end = end;
      last = last;
      ended = is;
      counted = omega (arith, see_all_events events nothing_seen (omega arith));
      agrees = ap not is.0 ∙ completeness_agrees events end last;
    },
  )
  | inr (no_end, saw, _) ↦ inl (no_end, saw)
]

-- The three ways in which the summary of a stream can go.
abbrev pub Outcomes : Fallible (List Event) → Fallible StreamSummary → Type 0
Outcomes read summarized =
    ((e : CoreError) × (read ≡ err e) × (summarized ≡ err e))
    ⊎ ((events : List Event) × (read ≡ ok events)
        × HasNoEnd events
        × (summarized ≡ err missing_session_end))
    ⊎ ((events : List Event) × (s : StreamSummary) × (read ≡ ok events)
        × (summarized ≡ ok s)
        × Summarizes events s)

finished :
    (read : Fallible (List Event))
    → Outcomes read (
        (read >>= λ events. ok (see_all events nothing_seen)) >>= λ seen.
        if not seen.saw_end then err missing_session_end else ok seen.summary)
finished (err e) = inl (e, refl, refl)
finished (ok events) = elim (summary_of_seen events) [
  | inl (no_end, unseen) ↦ inr (inl (events, refl, no_end, rw unseen refl))
  | inr (saw, h) ↦ inr (inr (events, (see_all events nothing_seen).summary, refl, rw saw refl, h))
]

-- Whatever the JSON parser does, the summary of a stream goes one of three ways: a line that cannot be
-- read is the error; lines that read as events without a `session_end` are the error that it is
-- missing; and otherwise the summary says what the last `session_end` says, counts the observations,
-- and calls the recording partial exactly if the rules engine does.
pub summarize_stream_lem :
    (from_str : Text → Text ⊎ Event) (contents : Text)
    → Outcomes (read_lines from_str 0 (lines contents)) (summarize_stream from_str contents)
unfolding summarize_stream
summarize_stream_lem from_str contents =
    subst⁻¹
      (λ m.
        Outcomes (read_lines from_str 0 (lines contents))
          (m >>= λ seen. if not seen.saw_end then err missing_session_end else ok seen.summary))
      (summarize_lines-read_lines from_str 0 (lines contents) nothing_seen)
      (finished (read_lines from_str 0 (lines contents)))
