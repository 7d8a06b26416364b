-- ===== src/Core/Zones/Placing.antt =====
-- core/src/zones.rs: `placement_of`, against what each placement means.
use install_scope.Common.{
  sym, ◌∙◌, ◌≡◌, refl, ◌≢◌, ◌↔◌, ◌⊎◌, inl, inr, Bool, true, false, Option, none, some, List, [],
  ◌∷◌, arith, any, All, Any, ||_iff, not_true,
}
use install_scope.Common.Text.{Text, text, starts_with, starts_with_iff, IsPrefix}
use install_scope.Core.Events.{TracedPath, Zones, unresolved, is_resolved}
use install_scope.Core.Zones.{
  Zone, project, cache, home, tmp, declared, Placement, inside, outside, unresolvable, runtime,
  within, is_runtime, candidates, first_zone, place_in, placement_of,
}
use install_scope.Core.Zones.Within.{IsWithin, within_iff, IsRuntime, is_runtime_iff}
use install_scope.Core.Zones.Candidates.{
  Misses, FirstHolds, first_zone-none, none-first_zone, first_zone-some, extras_iff, Misses-given,
  given-Misses,
}

-- The path was resolved, and is absolute.
abbrev pub IsPlaceable : TracedPath → Type 0
IsPlaceable p = (p.origin ≢ unresolved) × IsPrefix (text "/") p.path

-- The only placement that a rule may score: resolved, absolute, no kernel interface, and in none of
-- the declared directories.
pub record IsOutside (p : TracedPath) (z : Zones) : Type 0 where
  pub placeable : IsPlaceable p
  pub not_runtime : ¬ IsRuntime p.path
  pub not_project : (d : Text) → z.project ≡ some d → ¬ IsWithin d p.path
  pub not_cache : (d : Text) → z.cache ≡ some d → ¬ IsWithin d p.path
  pub not_home : (d : Text) → z.home ≡ some d → ¬ IsWithin d p.path
  pub not_tmp : (d : Text) → z.tmp ≡ some d → ¬ IsWithin d p.path
  pub not_extra : All (λ d. ¬ IsWithin d p.path) z.extra

pub is_resolved_iff : (p : TracedPath) → (is_resolved p ≡ true) ↔ IsPlaceable p
unfolding is_resolved
is_resolved_iff p = grind (arith, starts_with_iff (text "/") p.path)

outside_facts :
    (p : TracedPath) (z : Zones)
    → placement_of p z ≡ outside
    → (is_resolved p ≡ true)
      × (is_runtime p.path ≡ false)
      × (first_zone p.path (candidates z) ≡ none)
      × (any (λ prefix. within p.path prefix) z.extra ≡ false)
unfolding placement_of
outside_facts p z h = ground arith

outside_of_facts :
    (p : TracedPath) (z : Zones)
    → is_resolved p ≡ true
    → starts_with (text "/") p.path ≡ true
    → is_runtime p.path ≡ false
    → first_zone p.path (candidates z) ≡ none
    → any (λ prefix. within p.path prefix) z.extra ≡ false
    → placement_of p z ≡ outside
unfolding placement_of
outside_of_facts p z resolved absolute not_run no_zone no_extra = ground arith

not_runtime_test : (path : Text) → ¬ IsRuntime path → is_runtime path ≡ false
not_runtime_test path h = not_true (is_runtime path) (λ e. h ((is_runtime_iff path).0 e))

-- A path is placed outside exactly when it was resolved, is absolute, is no kernel interface and
-- lies in none of the directories that the recording declares.
pub placement_of-outside_iff :
    (p : TracedPath) (z : Zones) → (placement_of p z ≡ outside) ↔ IsOutside p z
placement_of-outside_iff p z = (
  λ h.
      let (resolved, not_run, no_zone, no_extra) = outside_facts p z h in
      let misses = first_zone-none p.path (candidates z) no_zone in
      record {
        placeable = (is_resolved_iff p).0 resolved;
        not_runtime = λ r. ground (arith, (is_runtime_iff p.path).1 r);
        not_project = Misses-given p.path z.project project misses.0;
        not_cache = Misses-given p.path z.cache cache misses.1.0;
        not_home = Misses-given p.path z.home home misses.1.1.0;
        not_tmp = Misses-given p.path z.tmp tmp misses.1.1.1.0;
        not_extra = (extras_iff p.path z.extra).0 no_extra;
      },
  λ h.
      outside_of_facts p z ((is_resolved_iff p).1 h.placeable)
        ((starts_with_iff (text "/") p.path).1 h.placeable.1)
        (not_runtime_test p.path h.not_runtime)
        (none-first_zone p.path (candidates z) (
          given-Misses p.path z.project project h.not_project,
          (
            given-Misses p.path z.cache cache h.not_cache,
            (
              given-Misses p.path z.home home h.not_home,
              (given-Misses p.path z.tmp tmp h.not_tmp, tt),
            ),
          ),
        ))
        ((extras_iff p.path z.extra).1 h.not_extra),
)

extras_found :
    (path : Text) (ps : List Text)
    → any (λ prefix. within path prefix) ps ≡ true
    → Any (λ d. IsWithin d path) ps
extras_found path [] h = ground arith
extras_found path (d ∷ ds) h = elim ((||_iff (within path d) _).0 h) [
  | inl w ↦ Any.here ((within_iff path d).0 w)
  | inr later ↦ Any.there (extras_found path ds later)
]

-- What each answer says of the path.
pub data Places (p : TracedPath) (z : Zones) : Placement → Type 0 where
  not_placeable : ¬ IsPlaceable p → Places p z unresolvable
  kernel_interface : IsPlaceable p → IsRuntime p.path → Places p z runtime
  in_zone :
      {zone : Zone}
      → IsPlaceable p
      → ¬ IsRuntime p.path
      → FirstHolds p.path zone (candidates z)
      → Places p z (inside zone)
  in_extra :
      IsPlaceable p
      → ¬ IsRuntime p.path
      → All (Misses p.path) (candidates z)
      → Any (λ d. IsWithin d p.path) z.extra
      → Places p z (inside declared)
  escaped : IsOutside p z → Places p z outside

-- The part of `placement_of` behind the guards, at what the two searches found.
place_in-Places :
    (p : TracedPath) (z : Zones) (o : Option Zone) (b : Bool)
    → is_resolved p ≡ true
    → is_runtime p.path ≡ false
    → first_zone p.path (candidates z) ≡ o
    → any (λ prefix. within p.path prefix) z.extra ≡ b
    → placement_of p z ≡ place_in o b
    → Places p z (place_in o b)
place_in-Places p z (some zone) b resolved not_run e f _ =
    in_zone ((is_resolved_iff p).0 resolved) (λ r. ground (arith, (is_runtime_iff p.path).1 r))
      (first_zone-some p.path zone (candidates z) e)
place_in-Places p z none true resolved not_run e f _ =
    in_extra ((is_resolved_iff p).0 resolved) (λ r. ground (arith, (is_runtime_iff p.path).1 r))
      (first_zone-none p.path (candidates z) e) (extras_found p.path z.extra f)
place_in-Places p z none false resolved not_run e f placed =
    escaped ((placement_of-outside_iff p z).0 placed)

-- Behind the first guard the second never fires: a resolved path is absolute.
absolute_of_resolved :
    (p : TracedPath) → is_resolved p ≡ true → starts_with (text "/") p.path ≡ true
absolute_of_resolved p h = (starts_with_iff (text "/") p.path).1 ((is_resolved_iff p).0 h).1

placement_of_cases :
    (p : TracedPath) (z : Zones)
    → ((is_resolved p ≡ false) × (placement_of p z ≡ unresolvable))
      ⊎ ((is_resolved p ≡ true) × (is_runtime p.path ≡ true) × (placement_of p z ≡ runtime))
      ⊎ ((is_resolved p ≡ true)
          × (is_runtime p.path ≡ false)
          × (placement_of p z
              ≡ place_in
                  (first_zone p.path (candidates z))
                  (any (λ prefix. within p.path prefix) z.extra)))
unfolding placement_of
placement_of_cases p z = ground (arith, absolute_of_resolved p)

-- Every answer of `placement_of` means what it says: unresolvable paths are not placeable, runtime
-- ones are kernel interfaces, an inside one lies in the first declared zone that holds it (the extra
-- prefixes last), and an outside one lies in none.
pub placement_of-Places : (p : TracedPath) (z : Zones) → Places p z (placement_of p z)
placement_of-Places p z = elim (placement_of_cases p z) [
  | inl (e, placed) ↦ rw placed (not_placeable (λ h. ground (arith, (is_resolved_iff p).1 h)))
  | inr (inl (e, f, placed)) ↦
      rw placed (kernel_interface ((is_resolved_iff p).0 e) ((is_runtime_iff p.path).0 f))
  | inr (inr (e, f, placed)) ↦ rw placed (place_in-Places p z _ _ e f refl refl placed)
]

place_in-ne-unresolvable : (o : Option Zone) (b : Bool) → place_in o b ≢ unresolvable
place_in-ne-unresolvable (some zone) b h = ground arith
place_in-ne-unresolvable none true h = ground arith
place_in-ne-unresolvable none false h = ground arith

-- Exactly the unresolved paths have no place.
pub placement_of-unresolvable_iff :
    (p : TracedPath) (z : Zones) → (placement_of p z ≡ unresolvable) ↔ (is_resolved p ≡ false)
placement_of-unresolvable_iff p z = elim (placement_of_cases p z) [
  | inl (e, placed) ↦ (λ _. e, λ _. placed)
  | inr (inl (e, f, placed)) ↦ (λ h. ground arith, λ h. ground arith)
  | inr (inr (e, f, placed)) ↦
      (λ h. absurd (place_in-ne-unresolvable _ _ (sym placed ∙ h)), λ h. ground arith)
]
