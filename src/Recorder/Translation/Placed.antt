-- ===== src/Recorder/Translation/Placed.antt =====
-- recorder/src/translate.rs with core/src/zones.rs: which translated writes the rules engine can place.
use install_scope.Common.{
  ℕ, ◌≡◌, ◌≢◌, refl, inl, inr, true, false, Option, none, some, arith, Bool-cases,
}
use install_scope.Common.Text.{Text, text, starts_with, strip_prefix}
use install_scope.Core.Events.{Event, FsWrite, fs_write, is_resolved, Zones}
use install_scope.Core.Zones.{placement_of, unresolvable}
use install_scope.Core.Zones.Placing.{placement_of-unresolvable_iff}
use install_scope.Recorder.Paths.{normalize}
use install_scope.Recorder.Merging.{FsEvent, fs}
use install_scope.Recorder.Translation.{
  classify_path, target_of, write_of, observed_at, syscall_name_for, to_event,
}

starts_with-normalize :
    (p : Text) → starts_with (text "/") p ≡ true → starts_with (text "/") (normalize p) ≡ true
unfolding normalize starts_with strip_prefix
starts_with-normalize p h = rw (h, normalize) refl

-- The path that was written is known whole, and absolute.
abbrev pub IsWhole : FsEvent → Text → Type 0
IsWhole e p = (e.path ≡ some p) × (e.path_truncated ≡ false) × (starts_with (text "/") p ≡ true)

target_whole :
    (e : FsEvent) (p : Text)
    → IsWhole e p
    → (target_of e e.path).path ≡ normalize p × (is_resolved (target_of e e.path) ≡ true)
unfolding classify_path is_resolved
target_whole e p (known, whole, absolute) = rw (known, whole, absolute) (refl, refl)

target_resolved :
    (e : FsEvent) (o : Option Text)
    → is_resolved (target_of e o) ≡ true
    → (p : Text) × (o ≡ some p) × (e.path_truncated ≡ false) × (starts_with (text "/") p ≡ true)
unfolding classify_path is_resolved
target_resolved e none h = absurd (ground arith)
target_resolved e (some p) h = (p, refl, ground arith, ground arith)

-- For every write that the kernel side reports: it becomes a write event, whose target the rules engine
-- can place if and only if the path is known, was not cut off, and is absolute; the target is then
-- the normal form of that path.
pub to_event-placed :
    (e : FsEvent) (start : ℕ) (z : Zones)
    → (event : Event) × (w : FsWrite) × (to_event (fs e) start ≡ some event)
      × (event.payload ≡ fs_write w)
      × (placement_of w.target z ≢ unresolvable
          → (p : Text) × IsWhole e p × (w.target.path ≡ normalize p))
      × ((p : Text) → IsWhole e p → placement_of w.target z ≢ unresolvable)
unfolding to_event
to_event-placed e start z =
    let target = target_of e e.path in
    let unplaced = placement_of-unresolvable_iff target z in
    (
      observed_at start e.header (syscall_name_for e.write_kind) (fs_write (write_of e)),
      write_of e,
      refl,
      refl,
      λ placeable. elim (Bool-cases (is_resolved target)) [
        | inl resolved ↦
            let (p, known, whole, absolute) = target_resolved e e.path resolved in
            (p, (known, whole, absolute), (target_whole e p (known, whole, absolute)).0)
        | inr lost ↦ absurd (placeable (unplaced.1 lost))
      ],
      λ p whole lost. ground (arith, unplaced.0 lost, (target_whole e p whole).1),
    )
