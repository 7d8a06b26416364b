-- ===== src/Recorder/Writer/Spacing.antt =====
-- recorder/src/session.rs: how many events a stream has between its heartbeats.
use install_scope.Common.{
  ℕ, suc, ◌⊎◌, ◌+◌, ◌≤◌, ◌<◌, ◌≡◌, refl, ap, ◌∙◌, Bool, false, not, List, [], ◌∷◌, ◌++◌, filter,
  arith, Bool-cases, inl, inr, leb, ◌||◌, ◌^◌,
}
use install_scope.Common.Text.{Text}
use install_scope.Core.Events.{
  Event, Payload, is_framing, session_start, heartbeat, session_end, fs_write, fs_read, net_connect,
  dns_query, proc_spawn,
}
use install_scope.Recorder.Writer.{SessionWriter, Readings, Sink, is_due, sub_u64}

-- The observations since the last heartbeat, after one event more.
abbrev pub after_event : ℕ → Payload → ℕ
after_event n (session_start _) = n
after_event n (heartbeat _) = 0
after_event n (session_end _) = n
after_event n (fs_write _) = suc n
after_event n (fs_read _) = suc n
after_event n (net_connect _) = suc n
after_event n (dns_query _) = suc n
after_event n (proc_spawn _) = suc n

-- Those after a stream, with `n` before it.
abbrev pub gap_after : ℕ → List Event → ℕ
gap_after n [] = n
gap_after n (e ∷ events) = gap_after (after_event n e.payload) events

-- At no place of the stream are they more than 2000.
abbrev pub AreSpaced : ℕ → List Event → Type 0
AreSpaced n [] = Unit
AreSpaced n (e ∷ events) =
    (after_event n e.payload ≤ 2000) × AreSpaced (after_event n e.payload) events

abbrev pub observed_in : List Event → List Event
observed_in = filter (λ e. not (is_framing e.payload))

-- A writer counts the observations since the last heartbeat in its stream.
pub record IsPacing {S : Type 0} (w : SessionWriter S) (events : List Event) : Type 0 where
  pub counts : w.last_heartbeat_events + gap_after 0 events ≡ w.events_emitted
  pub spaced : AreSpaced 0 events

-- And they are fewer than 2000 now.
abbrev pub IsPaced : {S : Type 0} → SessionWriter S → List Event → Type 0
IsPaced w events = IsPacing w events × (gap_after 0 events < 2000)

pub gap_after-snoc :
    (n : ℕ) (events : List Event) (e : Event)
    → gap_after n (events ++ e ∷ []) ≡ after_event (gap_after n events) e.payload
gap_after-snoc n [] e = refl
gap_after-snoc n (d ∷ events) e = gap_after-snoc (after_event n d.payload) events e

pub AreSpaced-snoc :
    (n : ℕ) (events : List Event) (e : Event)
    → AreSpaced n events
    → after_event (gap_after n events) e.payload ≤ 2000
    → AreSpaced n (events ++ e ∷ [])
AreSpaced-snoc n [] e h small = (small, tt)
AreSpaced-snoc n (d ∷ events) e (k, h) small =
    (k, AreSpaced-snoc (after_event n d.payload) events e h small)

pub after_observed : (n : ℕ) (p : Payload) → is_framing p ≡ false → after_event n p ≡ suc n
unfolding is_framing
after_observed n (session_start _) h = absurd (ground arith)
after_observed n (heartbeat _) h = absurd (ground arith)
after_observed n (session_end _) h = absurd (ground arith)
after_observed n (fs_write _) h = refl
after_observed n (fs_read _) h = refl
after_observed n (net_connect _) h = refl
after_observed n (dns_query _) h = refl
after_observed n (proc_spawn _) h = refl

pub observed_in-append :
    (events more : List Event)
    → observed_in (events ++ more) ≡ observed_in events ++ observed_in more
observed_in-append [] more = refl
observed_in-append (e ∷ events) more = elim (Bool-cases (is_framing e.payload)) [
  | inl h ↦ rw h (observed_in-append events more)
  | inr h ↦ rw h (ap (λ l. e ∷ l) (observed_in-append events more))
]

-- Without a heartbeat being due there are fewer than 2000.
early :
    (emitted last gap : ℕ) (late : Bool)
    → last + gap ≡ emitted
    → emitted < 2 ^ 64
    → (leb 2000 (sub_u64 emitted last) || late) ≡ false
    → gap < 2000
early emitted last gap late e small h = ground arith

pub early_gap :
    {S : Type 0} (ops : Sink S) (to_jsonl : Event → Text ⊎ Text) (w : SessionWriter S)
    (r : Readings) (events : List Event)
    → IsPacing w events
    → w.events_emitted < 2 ^ 64
    → is_due ops to_jsonl w r ≡ false
    → gap_after 0 events < 2000
early_gap ops to_jsonl w r events p small h =
    early w.events_emitted w.last_heartbeat_events (gap_after 0 events) _ p.counts small h

-- An observation is one more.
pub IsPacing-observed :
    {S : Type 0} (w w' : SessionWriter S) (events : List Event) (e : Event)
    → IsPaced w events
    → is_framing e.payload ≡ false
    → w'.last_heartbeat_events ≡ w.last_heartbeat_events
    → w'.events_emitted ≡ suc w.events_emitted
    → IsPacing w' (events ++ e ∷ []) × (gap_after 0 (events ++ e ∷ []) ≤ 2000)
IsPacing-observed w w' events e (p, few) h last emitted =
    let gap = gap_after-snoc 0 events e ∙ after_observed (gap_after 0 events) e.payload h in
    (
      record {
        counts = omega (arith, gap, p.counts, last, emitted);
        spaced =
            AreSpaced-snoc 0 events e p.spaced
              (omega (arith, after_observed (gap_after 0 events) e.payload h, few));
      },
      omega (arith, gap, few),
    )

pub observed_in-snoc :
    (events : List Event) (e : Event)
    → is_framing e.payload ≡ false
    → observed_in (events ++ e ∷ []) ≡ observed_in events ++ e ∷ []
observed_in-snoc events e h =
    observed_in-append events (e ∷ []) ∙ ap (λ l. observed_in events ++ l) (rw h refl)
