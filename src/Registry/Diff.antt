-- ===== src/Registry/Diff.antt =====
-- registry/src/diff.rs: comparing two recordings of one package.
pub mod Claims
use install_scope.Common.{
  ℕ, Bool, true, false, not, ◌&&◌, ◌||◌, Option, none, some, List, [], ◌∷◌, ◌++◌, any, filter, map,
  if◌then◌else◌, length, take, ◌==◌, ltb, Ordering,
}
use install_scope.Common.Text.{Text, text, text_eq, join_with}
use install_scope.Common.Text.Decimal.{decimal}
use install_scope.Core.Events.{Backend, strace, aya}
use install_scope.Core.Coverage.{ObservationClass, for_backend, blind_spots, class_name}
use install_scope.Registry.Behavior.{Behavior, BehaviorClass, behavior_classes, class_of, class_eq}
use install_scope.Registry.Behavior.Keys.{behavior_cmp}
use install_scope.Registry.Behavior.Profiles.{Profile}

pub data Side : Type 0 where
  before_side after_side : Side

pub data Blocker : Type 0 where
  backend_mismatch : (before after : Backend) → Blocker
  partial_recording : (side : Side) → Blocker

abbrev pub side_text : Side → Text
side_text before_side = text "earlier"
side_text after_side = text "later"

abbrev backend_text : Backend → Text
backend_text strace = text "strace"
backend_text aya = text "aya"

unfoldable pub blocker_explanation : Blocker → Text
blocker_explanation (backend_mismatch before after) =
    text "the two recordings were made by different backends ("
    ++ backend_text before
    ++ text " and "
    ++ backend_text after
    ++ text
        "), which observe different things; a difference between them is a difference between recorders, not between package versions"
blocker_explanation (partial_recording side) =
    text "the "
    ++ side_text side
    ++ text
        " recording is incomplete, so any behavior missing from it may simply not have been observed"

pub data Caveat : Type 0 where
  agent_version_differs : (before after : Text) → Caveat
  unresolved_paths : (side : Side) (count : ℕ) → Caveat
  backend_blind_spots : (backend : Backend) (classes : List Text) → Caveat

unfoldable pub caveat_explanation : Caveat → Text
caveat_explanation (agent_version_differs before after) =
    text "the recordings were made by different recorder versions ("
    ++ before
    ++ text " and "
    ++ after
    ++ text
        "); a behavior that appears only in the later one may be newly observable rather than new"
caveat_explanation (unresolved_paths side count) =
    decimal count
    ++ text " path"
    ++ (if count == 1 then [] else text "s")
    ++ text " in the "
    ++ side_text side
    ++ text " recording could not be resolved to an absolute location, so "
    ++ (if count == 1 then text "was" else text "were")
    ++ text " not compared against the expected directories"
caveat_explanation (backend_blind_spots backend classes) =
    text "the "
    ++ backend_text backend
    ++ text " backend does not observe "
    ++ join_with (text " or ") classes
    ++ text "; absence of those behaviors in either recording is not evidence they did not happen"

pub record Comparison : Type 0 where
  pub package_name : Text
  pub before_version : Text
  pub after_version : Text
  pub added : List Behavior
  pub removed : List Behavior
  pub unchanged : ℕ
  pub blockers : List Blocker
  pub caveats : List Caveat

abbrev is_nil {ℓ} : {A : Type ℓ} → List A → Bool
is_nil [] = true
is_nil (_ ∷ _) = false

abbrev pub comparable : Comparison → Bool
comparable c = is_nil c.blockers

abbrev pub is_identical : Comparison → Bool
is_identical c = is_nil c.added && is_nil c.removed

abbrev both_versions : Comparison → Text
both_versions c =
    c.package_name
    ++ text "@"
    ++ c.before_version
    ++ text " and "
    ++ c.package_name
    ++ text "@"
    ++ c.after_version

unfoldable pub headline : Comparison → Text
headline c =
    if not (comparable c)
    then both_versions c ++ text " cannot be compared"
    else if is_identical c
    then both_versions c ++ text " behaved identically"
    else c.package_name
      ++ text "'s behavior changed between "
      ++ c.before_version
      ++ text " and "
      ++ c.after_version

abbrev pub in_class : BehaviorClass → List Behavior → List Behavior
in_class class = filter (λ b. class_eq (class_of b) class)

abbrev pub added_in : Comparison → BehaviorClass → List Behavior
added_in c class = in_class class c.added

abbrev pub removed_in : Comparison → BehaviorClass → List Behavior
removed_in c class = in_class class c.removed

unfoldable pub changed_classes : Comparison → List BehaviorClass
changed_classes c =
    filter (λ class. not (is_nil (added_in c class)) || not (is_nil (removed_in c class)))
      behavior_classes

-- The inner loop of `highlights`, over the behaviours of one class: whether the limit was met, and
-- the list so far.
abbrev pub push_until : ℕ → List Behavior → List Behavior → Bool × List Behavior
push_until limit [] out = (false, out)
push_until limit (b ∷ bs) out =
    let more = push_until limit bs (out ++ b ∷ []) in
    if ltb (length out) limit then more else (true, out)

abbrev pub highlights_from : ℕ → Comparison → List BehaviorClass → List Behavior → List Behavior
highlights_from limit c [] out = out
highlights_from limit c (class ∷ classes) out =
    let (full, out') = push_until limit (added_in c class) out in
    let more = highlights_from limit c classes out' in if full then out' else more

unfoldable pub highlights : Comparison → ℕ → List Behavior
highlights c limit = highlights_from limit c behavior_classes []

pub record Recording : Type 0 where
  pub version : Text
  pub agent_version : Text
  pub profile : Profile

abbrev pub backend_eq : Backend → Backend → Bool
backend_eq strace strace = true
backend_eq aya aya = true
backend_eq _ _ = false

-- `BTreeSet::contains`, by the derived order.
abbrev pub contains : List Behavior → Behavior → Bool
contains set b = any (λ x. elim (behavior_cmp b x) [ Ordering.eq ↦ true | _ ↦ false ]) set

-- `BTreeSet::difference` and `BTreeSet::intersection`, in the order of the first set.
abbrev pub difference : List Behavior → List Behavior → List Behavior
difference set other = filter (λ b. not (contains other b)) set

abbrev pub intersection : List Behavior → List Behavior → List Behavior
intersection set other = filter (contains other) set

abbrev pub when {ℓ} : {A : Type ℓ} → Bool → A → List A
when true a = a ∷ []
when false a = []

abbrev pub blockers_of : Profile → Profile → List Blocker
blockers_of before after =
    when (not (backend_eq before.backend after.backend))
      (backend_mismatch before.backend after.backend)
    ++ (when (not before.complete) (partial_recording before_side)
        ++ when (not after.complete) (partial_recording after_side))

abbrev blind_caveat : Backend → List Text → List Caveat
blind_caveat backend [] = []
blind_caveat backend (class ∷ classes) = backend_blind_spots backend (class ∷ classes) ∷ []

abbrev blind_classes : Backend → List Text
blind_classes backend = map (λ s. class_name s.0) (blind_spots (for_backend backend))

abbrev pub caveats_of : Recording → Recording → List Caveat
caveats_of before after =
    when (not (text_eq before.agent_version after.agent_version))
      (agent_version_differs before.agent_version after.agent_version)
    ++ (when (ltb 0 before.profile.unresolved_paths)
          (unresolved_paths before_side before.profile.unresolved_paths)
        ++ (when (ltb 0 after.profile.unresolved_paths)
              (unresolved_paths after_side after.profile.unresolved_paths)
            ++ (if backend_eq before.profile.backend after.profile.backend
                then blind_caveat before.profile.backend (blind_classes before.profile.backend)
                else [])))

unfoldable pub compare_recordings : Text → Recording → Recording → Comparison
compare_recordings name before after =
    let old = before.profile.behaviors in
    let new = after.profile.behaviors in
    record {
      package_name = name;
      before_version = before.version;
      after_version = after.version;
      added = difference new old;
      removed = difference old new;
      unchanged = length (intersection new old);
      blockers = blockers_of before.profile after.profile;
      caveats = caveats_of before after;
    }
