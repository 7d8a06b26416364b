-- ===== src/Recorder/TranslationTests.antt =====
-- Tests of the translation of merged records, and an instance of the theorem about it.
use install_scope.Common.{◌≡◌, ◌≢◌, refl, false, none, some, [], ◌∷◌}
use install_scope.Common.Text.{text_eq, Text, text}
use install_scope.Core.Events.{Event, FsWrite, fs_write, no_zones, absolute, write, failed}
use install_scope.Core.Zones.{placement_of, unresolvable}
use install_scope.Abi.{zeroed_header, write_write, af_inet6}
use install_scope.Recorder.Paths.{normalize}
use install_scope.Recorder.Merging.{FsEvent, fs}
use install_scope.Recorder.Translation.{format_addr, to_event, write_of}
use install_scope.Recorder.Translation.Placed.{IsWhole, to_event-placed}

abbrev denied : FsEvent
denied = record {
  header = record zeroed_header { ktime_ns = 9; tgid = 7 };
  write_kind = write_write;
  path = some (text "/etc//x");
  path_truncated = false;
  bytes = some 3;
  mode = 420;
  errno = some 13;
}

denied_write : write_of denied ≡ record {
  target = record { path = text "/etc/x"; origin = absolute };
  kind = write;
  bytes = some 3;
  flags = some (text "requested_count");
  mode = some (text "0o644");
  source = none;
  outcome = failed (text "EACCES");
}
unfolding to_event text_eq
denied_write = refl

short_address :
    format_addr af_inet6 (32 ∷ 1 ∷ 13 ∷ 184 ∷ 0 ∷ 0 ∷ 0 ∷ 0 ∷ 0 ∷ 0 ∷ 0 ∷ 0 ∷ 0 ∷ 0 ∷ 0 ∷ 1 ∷ [])
    ≡ some (text "2001:db8::1")
unfolding format_addr
short_address = refl

to_event-placed_example :
    (event : Event) × (w : FsWrite) × (to_event (fs denied) 4 ≡ some event)
    × (event.payload ≡ fs_write w)
    × (placement_of w.target no_zones ≢ unresolvable
        → (p : Text) × IsWhole denied p × (w.target.path ≡ normalize p))
    × ((p : Text) → IsWhole denied p → placement_of w.target no_zones ≢ unresolvable)
to_event-placed_example = to_event-placed denied 4 no_zones
