-- ===== src/Recorder/Session/Written.antt =====
-- recorder/src/session.rs: a stream of encoded events is read back as these events.
use install_scope.Common.{
  ℕ, suc, ◌≡◌, refl, ap, ◌∙◌, ◌≢◌, ◌⊎◌, true, false, List, [], ◌∷◌, ◌++◌, ◌==◌, map, All, not,
  if◌then◌else◌,
}
use install_scope.Common.Text.{Text, trim}
use install_scope.Common.Text.Lines.{lines, IsLine, lines-IsLine}
use install_scope.Core.Errors.{missing_session_end, ok, err, ◌>>=◌, Fallible}
use install_scope.Core.Events.{Event, schema_version_supported, is_framing}
use install_scope.Recorder.Session.{
  or_malformed, versioned, from_jsonl, Seen, StreamSummary, nothing_seen, see, is_blank,
  summarize_lines, summarize_stream,
}
use install_scope.Recorder.Session.Summaries.{see_all}

abbrev pub IsSupported : Event → Type 0
IsSupported e = (e.schema_version == schema_version_supported) ≡ true

-- A file of the lines.
abbrev pub written_out : List Text → Text
written_out [] = []
written_out (line ∷ rest) = line ++ 10 ∷ written_out rest

pub see_all-snoc :
    (events : List Event) (e : Event) (seen : Seen)
    → see_all (events ++ e ∷ []) seen ≡ see e.payload (see_all events seen)
see_all-snoc [] e seen = refl
see_all-snoc (x ∷ events) e seen = see_all-snoc events e (see x.payload seen)

not_blank : (s : Text) → s ≢ [] → is_blank s ≡ false
not_blank [] h = absurd (h refl)
not_blank (c ∷ s) h = refl

module _ (from_str : Text → Text ⊎ Event) (encode : Event → Text) where
  -- An event of the version that is read, whose line reads back as it.
  abbrev pub IsRead : Event → Type 0
  IsRead e = IsSupported e × IsLine from_str e (encode e)

  -- An observation that is read.
  abbrev pub IsObserved : Event → Type 0
  IsObserved e = (is_framing e.payload ≡ false) × IsRead e

  from_jsonl-encode :
      (e : Event) (number : ℕ) → IsRead e → from_jsonl from_str (encode e) number ≡ ok e
  unfolding from_jsonl
  from_jsonl-encode e number (supported, line) =
      ap (λ r. or_malformed number r >>= versioned) line.read_back ∙ rw supported refl

  summarize_lines-written_out :
      (events : List Event) (index : ℕ) (seen : Seen)
      → All IsRead events
      → summarize_lines from_str index (lines (written_out (map encode events))) seen
        ≡ ok (see_all events seen)
  unfolding lines
  summarize_lines-written_out [] index seen _ = refl
  summarize_lines-written_out (e ∷ events) index seen (read, h) =
      let rest = lines (written_out (map encode events)) in
      ap (λ l. summarize_lines from_str index l seen)
        (lines-IsLine from_str e (encode e) (written_out (map encode events)) read.1)
      ∙ rw (not_blank (trim (encode e)) (read.1).visible) (
          ap
            (λ m. m >>= λ event. summarize_lines from_str (suc index) rest (see event.payload seen))
            (from_jsonl-encode e (suc index) read)
          ∙ summarize_lines-written_out events (suc index) (see e.payload seen) h)

  -- The stream of these events, once they hold an end.
  pub summarize_stream-written_out :
      (events : List Event) (summary : StreamSummary)
      → All IsRead events
      → see_all events nothing_seen ≡ record { summary = summary; saw_end = true }
      → summarize_stream from_str (written_out (map encode events)) ≡ ok summary
  unfolding summarize_stream
  summarize_stream-written_out events summary read seen =
      let finishing : Seen → Fallible StreamSummary =
        λ s. if not s.saw_end then err missing_session_end else ok s.summary in
      ap (λ m. m >>= finishing) (summarize_lines-written_out events 0 nothing_seen read)
      ∙ ap finishing seen
