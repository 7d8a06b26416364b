-- ===== src/Registry/Diff/Claims.antt =====
-- registry/src/diff.rs: what a comparison says, and when it may say it.
use install_scope.Common.{
  ℕ, ◌+◌, ◌≤◌, ◌<◌, ◌≡◌, refl, sym, ap, ◌∙◌, ◌↔◌, inl, inr, Bool, true, false, not, List, [], ◌∷◌,
  ◌++◌, filter, arith, length, take, length-append, take_of_length-le, take-append_of_full, Any-map,
  Any-of_filter, filter-Any, Any-witness, filter-holds, Bool-cases, not_true, any_iff, All-Any, ltb,
  Ordering,
}
use mathlib.Core.Path.{subst}
use mathlib.Core.List.{append_assoc, append-nil}
use install_scope.Common.Text.{Text}
use install_scope.Core.Events.{Backend, strace, aya}
use install_scope.Registry.Behavior.{Behavior, BehaviorClass, behavior_classes}
use install_scope.Registry.Behavior.Keys.{behavior_cmp, behavior_cmp-IsExact}
use install_scope.Registry.Behavior.Outside.{Holds}
use install_scope.Registry.Diff.{
  Comparison, comparable, Recording, contains, difference, backend_eq, compare_recordings,
  push_until, highlights_from, highlights, added_in,
}

same_iff :
    (b x : Behavior)
    → ((elim (behavior_cmp b x) [ Ordering.eq ↦ true | _ ↦ false ]) ≡ true) ↔ (x ≡ b)
same_iff b x = (
  λ h. sym (behavior_cmp-IsExact.exact b x (ground arith)),
  λ e. ground (arith, ap (behavior_cmp b) e, behavior_cmp-IsExact.same b),
)

pub contains_iff : (set : List Behavior) (b : Behavior) → (contains set b ≡ true) ↔ Holds b set
contains_iff set b = any_iff _ (λ x. x ≡ b) (same_iff b) set

difference_iff :
    (set other : List Behavior) (b : Behavior)
    → Holds b (difference set other) ↔ (Holds b set × (¬ Holds b other))
difference_iff set other b = (
  λ h. (
    Any-of_filter _ set h,
    λ k.
        let lacks = λ (x : Behavior). not (contains other x) in
        let (x, (out, e)) = Any-witness (All-Any (filter lacks set) (filter-holds lacks set) h) in
        ground (arith, (contains_iff other b).1 k, ap lacks e),
  ),
  λ (h, n).
      let lacks = not_true (contains other b) (λ t. n ((contains_iff other b).0 t)) in
      filter-Any _ set (Any-map (λ x e. (e, ap (λ y. not (contains other y)) e ∙ ap not lacks)) h),
)

filter_split :
    {A : Type 0} (p : A → Bool) (xs : List A)
    → length (filter (λ x. not (p x)) xs) + length (filter p xs) ≡ length xs
filter_split p [] = omega arith
filter_split p (x ∷ xs) = ground (arith, filter_split p xs)

backend_eq_iff : (a b : Backend) → (backend_eq a b ≡ true) ↔ (a ≡ b)
backend_eq_iff strace strace = (λ _. refl, λ _. refl)
backend_eq_iff aya aya = (λ _. refl, λ _. refl)
backend_eq_iff strace aya = (λ h. absurd (ground arith), λ h. absurd (ground arith))
backend_eq_iff aya strace = (λ h. absurd (ground arith), λ h. absurd (ground arith))

-- For any two recordings of a package: exactly the behaviours of the later one alone are added, and
-- exactly those of the earlier one alone are removed; each behaviour of the later one is counted as
-- added or as unchanged; and the comparison supports a claim exactly if one backend made both
-- recordings and both are whole.
pub compare_recordings_lem :
    (name : Text) (before after : Recording) (b : Behavior)
    → (Holds b (compare_recordings name before after).added
        ↔ (Holds b after.profile.behaviors × (¬ Holds b before.profile.behaviors)))
      × (Holds b (compare_recordings name before after).removed
          ↔ (Holds b before.profile.behaviors × (¬ Holds b after.profile.behaviors)))
      × (length (compare_recordings name before after).added
            + (compare_recordings name before after).unchanged
          ≡ length after.profile.behaviors)
      × ((comparable (compare_recordings name before after) ≡ true) ↔ (
          (before.profile.backend ≡ after.profile.backend)
          × (before.profile.complete ≡ true)
          × (after.profile.complete ≡ true)))
unfolding compare_recordings
compare_recordings_lem name before after b =
    let old = before.profile in
    let new = after.profile in
    (
      difference_iff new.behaviors old.behaviors b,
      difference_iff old.behaviors new.behaviors b,
      filter_split (contains old.behaviors) new.behaviors,
      (
        λ h.
            ((backend_eq_iff old.backend new.backend).0 (ground arith), ground arith, ground arith),
        λ (e, c, d). ground (arith, (backend_eq_iff old.backend new.backend).1 e),
      ),
    )

abbrev Pushed : ℕ → List Behavior → List Behavior → Bool × List Behavior → Type 0
Pushed limit out bs (full, out') =
    (out' ≡ take limit (out ++ bs)) × ((full ≡ true) ↔ (limit < length (out ++ bs)))

push_until-Pushed :
    (limit : ℕ) (bs out : List Behavior)
    → length out ≤ limit
    → Pushed limit out bs (push_until limit bs out)
push_until-Pushed limit [] out h = (
  sym (ap (take limit) (append-nil out) ∙ take_of_length-le limit out h),
  (λ e. absurd (ground arith), λ m. absurd (omega (arith, h, length-append out []))),
)
push_until-Pushed limit (b ∷ bs) out h = elim (Bool-cases (ltb (length out) limit)) [
  | inl room ↦
      rw (room, push_until)
        (subst (λ l. Pushed limit [] l (push_until limit bs (out ++ b ∷ [])))
          (append_assoc out (b ∷ []) bs)
          (push_until-Pushed limit bs (out ++ b ∷ []) (ground (arith, length-append out (b ∷ [])))))
  | inr no_room ↦
      rw (no_room, push_until)
        (
          sym (
              take-append_of_full limit out (b ∷ bs) (ground arith)
              ∙ take_of_length-le limit out h),
          (λ _. ground (arith, length-append out (b ∷ bs)), λ _. refl),
        )
]

abbrev pub by_class : Comparison → List BehaviorClass → List Behavior
by_class c [] = []
by_class c (class ∷ classes) = added_in c class ++ by_class c classes

highlights_from-eq-take :
    (limit : ℕ) (c : Comparison) (classes : List BehaviorClass) (out : List Behavior)
    → length out ≤ limit
    → highlights_from limit c classes out ≡ take limit (out ++ by_class c classes)
highlights_from-eq-take limit c [] out h =
    sym (ap (take limit) (append-nil out) ∙ take_of_length-le limit out h)
highlights_from-eq-take limit c (class ∷ classes) out h =
    let bs = added_in c class in
    let (e, full) = push_until-Pushed limit bs out h in
    let whole = append_assoc out bs (by_class c classes) in
    elim (Bool-cases (push_until limit bs out).0) [
      | inl met ↦
          rw (met, highlights_from)
            (e
              ∙ sym (
                  take-append_of_full limit (out ++ bs) (by_class c classes)
                    (omega (arith, full.0 met)))
              ∙ ap (take limit) whole)
      | inr not_met ↦
          rw (not_met, highlights_from)
            (let fits : length (out ++ bs) ≤ limit = ground (arith, full.1) in
              let same : (push_until limit bs out).1 ≡ out ++ bs =
                e ∙ take_of_length-le limit (out ++ bs) fits in
              ap (highlights_from limit c classes) same
              ∙ highlights_from-eq-take limit c classes (out ++ bs) fits
              ∙ ap (take limit) whole)
    ]

-- For any comparison and limit: the highlights are the first of the added behaviours, up to the limit,
-- taken class by class in the order of the report.
pub highlights-eq-take :
    (c : Comparison) (limit : ℕ) → highlights c limit ≡ take limit (by_class c behavior_classes)
unfolding highlights
highlights-eq-take c limit = highlights_from-eq-take limit c behavior_classes [] (omega arith)
