-- ===== src/Core/Zones/Candidates.antt =====
-- core/src/zones.rs: the search of the declared directories.
use mathlib.Core.Path.{subst}
use install_scope.Common.{
  ◌≡◌, refl, ◌↔◌, inl, inr, false, Option, none, some, List, [], ◌∷◌, arith, any, All, Bool-cases,
}
use install_scope.Common.Text.{Text}
use install_scope.Core.Zones.{Zone, within, first_zone}
use install_scope.Core.Zones.Within.{IsWithin, within_iff}

-- Which zone a path lies in, by the candidate that names it.
abbrev pub Holds : Text → Zone → Option Text × Zone → Type 0
Holds path zone (none, z) = ⊥
Holds path zone (some prefix, z) = (z ≡ zone) × IsWithin prefix path

abbrev pub Misses : Text → Option Text × Zone → Type 0
Misses path (none, z) = Unit
Misses path (some prefix, z) = ¬ IsWithin prefix path

pub not_within : (path prefix : Text) → within path prefix ≡ false → ¬ IsWithin prefix path
not_within path prefix e w = ground (arith, (within_iff path prefix).1 w)

pub first_zone-none :
    (path : Text) (cs : List (Option Text × Zone))
    → first_zone path cs ≡ none
    → All (Misses path) cs
unfolding first_zone
first_zone-none path [] h = tt
first_zone-none path ((none, z) ∷ cs) h = (tt, first_zone-none path cs h)
first_zone-none path ((some prefix, z) ∷ cs) h =
    (not_within path prefix (ground arith), first_zone-none path cs (ground arith))

pub none-first_zone :
    (path : Text) (cs : List (Option Text × Zone))
    → All (Misses path) cs
    → first_zone path cs ≡ none
unfolding first_zone
none-first_zone path [] h = refl
none-first_zone path ((none, z) ∷ cs) (_, h) = none-first_zone path cs h
none-first_zone path ((some prefix, z) ∷ cs) (m, h) = elim (Bool-cases (within path prefix)) [
  | inl w ↦ absurd (m ((within_iff path prefix).0 w))
  | inr e ↦ rw e (none-first_zone path cs h)
]

-- Two answers of the zone search: the first candidate that holds the path, after those that miss it.
pub data FirstHolds (path : Text) (zone : Zone) : List (Option Text × Zone) → Type 0 where
  found :
      {c : Option Text × Zone} {cs : List (Option Text × Zone)}
      → Holds path zone c
      → FirstHolds path zone (c ∷ cs)
  passed :
      {c : Option Text × Zone} {cs : List (Option Text × Zone)}
      → Misses path c
      → FirstHolds path zone cs
      → FirstHolds path zone (c ∷ cs)

pub first_zone-some :
    (path : Text) (zone : Zone) (cs : List (Option Text × Zone))
    → first_zone path cs ≡ some zone
    → FirstHolds path zone cs
unfolding first_zone
first_zone-some path zone [] h = ground arith
first_zone-some path zone ((none, z) ∷ cs) h = passed tt (first_zone-some path zone cs h)
first_zone-some path zone ((some prefix, z) ∷ cs) h = elim (Bool-cases (within path prefix)) [
  | inl w ↦ found (ground arith, (within_iff path prefix).0 w)
  | inr e ↦ passed (not_within path prefix e) (first_zone-some path zone cs (ground arith))
]

pub extras_iff :
    (path : Text) (ps : List Text)
    → (any (λ prefix. within path prefix) ps ≡ false) ↔ All (λ prefix. ¬ IsWithin prefix path) ps
extras_iff path [] = (λ _. tt, λ _. refl)
extras_iff path (p ∷ ps) = (
  λ h. (not_within path p (ground arith), (extras_iff path ps).0 (ground arith)),
  λ (m, h). elim (Bool-cases (within path p)) [
    | inl w ↦ absurd (m ((within_iff path p).0 w))
    | inr e ↦ rw e ((extras_iff path ps).1 h)
  ],
)

pub Misses-given :
    (path : Text) (o : Option Text) (z : Zone)
    → Misses path (o, z)
    → (d : Text) → o ≡ some d
    → ¬ IsWithin d path
Misses-given path none z m d e = ground arith
Misses-given path (some prefix) z m d e =
    let same : prefix ≡ d = cc in subst (λ q. ¬ IsWithin q path) same m

pub given-Misses :
    (path : Text) (o : Option Text) (z : Zone)
    → ((d : Text) → o ≡ some d → ¬ IsWithin d path)
    → Misses path (o, z)
given-Misses path none z h = tt
given-Misses path (some prefix) z h = h prefix refl
