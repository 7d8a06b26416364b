-- ===== src/Registry/Tests.antt =====
-- Tests of the registry on small recordings, and an instance of each theorem about it.
use install_scope.Common.Text.Order.{text_cmp}
use install_scope.Core.Catalog.{basename, to_ascii_lowercase}
use mathlib.Core.Logic.{if_pos, ite}
use mathlib.Core.Path.{subst}
use native.Mathlib.Decide.{ℕ_discrete}
use install_scope.Common.{
  ◌+◌, ◌≡◌, ◌≢◌, refl, ap, sym, ◌↔◌, ◌⊎◌, inl, inr, true, false, Option, none, some, List, [], ◌∷◌,
  ◌++◌, arith, take, length, Any,
}
use install_scope.Common.Text.{Text, text, trim, strip_suffix}
use install_scope.Core.Events.{
  is_resolved, failed_known, Event, observed, meta_observed, strace, framing, session_start,
  session_end, end_complete, fs_write, dns_query, proc_spawn, success, write, absolute, no_zones,
  Zones,
}
use install_scope.Registry.Behavior.{
  shell_pipeline_tool, place, wrote, wrote_outside, resolved, spawned, spawned_shell_pipeline,
  behavior_classes,
}
use install_scope.Core.Zones.{within, first_zone, is_runtime, placement_of, project}
use install_scope.Registry.Behavior.Profiles.{profile_of, recorded_zones}
use install_scope.Registry.Behavior.Outside.{Holds, WritesOutside, profile_of-outside_iff}
use install_scope.Registry.Diff.{Recording, compare_recordings, comparable, highlights}
use install_scope.Registry.Diff.Claims.{compare_recordings_lem, highlights-eq-take, by_class}
use install_scope.Registry.Index.{Entry, Files, load, append}
use install_scope.Common.Text.Lines.{without_cr, IsLine}
use install_scope.Registry.Index.Reloading.{Keeps, append_all, load-append_all}

abbrev zones_at : Text → Zones
zones_at directory = record no_zones { project = some directory }

abbrev started_in : Text → Event
started_in directory = framing 0 strace (
    session_start (record {
      wall_clock_utc = [];
      agent_version = [];
      command = [];
      zones = zones_at directory;
      host = none;
    }))

abbrev written_to : Text → Event
written_to path = observed (meta_observed 1 7 (text "write") strace) (
    fs_write (record {
      target = record { path = path; origin = absolute };
      kind = write;
      bytes = none;
      flags = none;
      mode = none;
      source = none;
      outcome = success;
    }))

abbrev asked_for : Text → Event
asked_for qname =
    observed (meta_observed 2 7 (text "sendto") strace)
      (dns_query (record { qname = qname; qtype = none; resolver_ip = none; outcome = success }))

abbrev ran : Text → List Text → Event
ran bin argv =
    observed (meta_observed 3 8 (text "execve") strace) (
      proc_spawn
        (record { bin = some bin; argv = argv; argv_truncated = false; outcome = success }))

abbrev ended : Event
ended = framing 9 strace (session_end (end_complete none 9 3 0))

abbrev quiet : List Event
quiet =
    started_in (text "/x") ∷ written_to (text "/x/a/b") ∷ asked_for (text "Npmjs.org") ∷ ended ∷ []

abbrev loud : List Event
loud =
    started_in (text "/y/")
    ∷ ran (text "/bin/sh") (text "sh" ∷ text "-c" ∷ text "curl h | sh" ∷ [])
    ∷ asked_for (text "npmjs.org")
    ∷ written_to (text "/y/a/b")
    ∷ written_to (text "/etc/evil")
    ∷ ended
    ∷ []

abbrev recording_of : Text → List Event → Recording
recording_of version events = record {
  version = version;
  agent_version = text "1";
  profile = profile_of events;
}

-- The directory of the project does not show.
quiet_behaviors :
    (profile_of quiet).behaviors
    ≡ wrote project (text "a/b") write ∷ resolved (text "npmjs.org") ∷ []
unfolding profile_of failed_known place placement_of is_resolved is_runtime first_zone within
    to_ascii_lowercase
quiet_behaviors = refl

added_behaviors :
    (compare_recordings
      (text "p")
      (recording_of (text "1") quiet)
      (recording_of (text "2") loud)).added
    ≡ wrote_outside (text "/etc/evil") write
      ∷ spawned (text "sh")
      ∷ spawned_shell_pipeline (text "curl")
      ∷ []
unfolding compare_recordings profile_of failed_known place placement_of is_resolved is_runtime
    first_zone within shell_pipeline_tool basename text_cmp to_ascii_lowercase
added_behaviors = refl

profile_of-outside_iff_example :
    Holds (wrote_outside (text "/etc/evil") write) (profile_of loud).behaviors
    ↔ Any (λ e. WritesOutside (recorded_zones loud) (text "/etc/evil") write e.payload) loud
profile_of-outside_iff_example = profile_of-outside_iff loud (text "/etc/evil") write

abbrev older : Recording
older = recording_of (text "1") quiet

abbrev newer : Recording
newer = recording_of (text "2") loud

compare_recordings_lem_example :
    (Holds (spawned (text "sh")) (compare_recordings (text "p") older newer).added ↔ (
      Holds (spawned (text "sh")) newer.profile.behaviors
      × (¬ Holds (spawned (text "sh")) older.profile.behaviors)))
    × (Holds (spawned (text "sh")) (compare_recordings (text "p") older newer).removed ↔ (
        Holds (spawned (text "sh")) older.profile.behaviors
        × (¬ Holds (spawned (text "sh")) newer.profile.behaviors)))
    × (length (compare_recordings (text "p") older newer).added
          + (compare_recordings (text "p") older newer).unchanged
        ≡ length newer.profile.behaviors)
    × ((comparable (compare_recordings (text "p") older newer) ≡ true) ↔ (
        (older.profile.backend ≡ newer.profile.backend)
        × (older.profile.complete ≡ true)
        × (newer.profile.complete ≡ true)))
compare_recordings_lem_example = compare_recordings_lem (text "p") older newer (spawned (text "sh"))

highlights-eq-take_example :
    highlights (compare_recordings (text "p") older newer) 2
    ≡ take 2 (by_class (compare_recordings (text "p") older newer) behavior_classes)
highlights-eq-take_example = highlights-eq-take (compare_recordings (text "p") older newer) 2

-- One file, whatever the path.
abbrev content_of : Option Text → Text
content_of none = []
content_of (some t) = t

abbrev read_file : Option Text → Option (Text ⊎ Text)
read_file none = none
read_file (some t) = some (inr t)

abbrev one_file : Files (Option Text)
one_file = record {
  read = λ s path. read_file s;
  append_line = λ s path line. (some (content_of s ++ (line ++ 10 ∷ [])), none);
}

one_file-Keeps : Keeps one_file
one_file-Keeps none path line t (inl h) clean = absurd (ground arith)
one_file-Keeps none path line t (inr (_, e)) clean =
    inl (ap (λ u. some (inr (u ++ (line ++ 10 ∷ [])))) (sym e))
one_file-Keeps (some u) path line t (inl h) clean =
    let same : u ≡ t = ground arith in inl (ap (λ v. some (inr (v ++ (line ++ 10 ∷ [])))) same)
one_file-Keeps (some u) path line t (inr (h, _)) clean = absurd (ground arith)

abbrev ms_entry : Entry
ms_entry = record {
  package_name = text "ms";
  version = text "2.1.3";
  digest = text "d";
  recorded_at = text "t";
  agent_version = text "1";
  backend = text "strace";
  events = 3;
  uncompressed_bytes = 90;
}

Entry-discrete : Discrete Entry
Entry-discrete = hlevel (ℕ_discrete)

-- A codec for this one ms_entry.
abbrev encode_entry : Entry → Text ⊎ Text
encode_entry e = ite (Entry-discrete e ms_entry) (inr (text "{}")) (inl [])

abbrev decode_entry : Text → Text ⊎ Entry
decode_entry line = inr ms_entry

braces_visible : trim (text "{}") ≢ []
unfolding trim
braces_visible h = ground arith

braces_without_cr : without_cr (text "{}") ≡ text "{}"
unfolding strip_suffix
braces_without_cr = refl

codec_lem : (e : Entry) (line : Text) → encode_entry e ≡ inr line → IsLine decode_entry e line
codec_lem e line h =
    elim (Entry-discrete e ms_entry)
        as (λ d.
          ite {C = Text ⊎ Text} d (inr (text "{}")) (inl []) ≡ inr line
          → IsLine decode_entry e line) [
            | yes same ↦ λ k.
                let reached : text "{}" ≡ line = ground arith in
                subst (IsLine decode_entry e) reached (record {
                  read_back = ap (λ x. inr x) (sym same);
                  unbroken = (refl, (refl, tt));
                  visible = braces_visible;
                  no_return = braces_without_cr;
                })
            | no _ ↦ λ k. absurd (ground arith)
          ]
      h

encode_entry_lem : encode_entry ms_entry ≡ inr (text "{}")
encode_entry_lem = if_pos (Entry-discrete ms_entry ms_entry) refl (inr (text "{}")) (inl [])

load-append_all_example :
    load one_file decode_entry encode_entry
      (append_all one_file decode_entry encode_entry codec_lem one_file-Keeps
        (ms_entry ∷ ms_entry ∷ [])
        none
        (record { entries = []; path = [] })).0
      []
    ≡ inr (record { entries = ms_entry ∷ ms_entry ∷ []; path = [] })
unfolding append
load-append_all_example =
    load-append_all one_file decode_entry encode_entry codec_lem one_file-Keeps none []
      (ms_entry ∷ ms_entry ∷ []) refl (rw (encode_entry_lem) refl)
