-- ===== src/Core/Rules/Completeness.antt =====
-- core/src/rules.rs: `session_completeness`, in terms of the last `session_end`.
use install_scope.Common.{
  ◌≡◌, refl, sym, ap, ◌∙◌, ◌↔◌, ◌⊎◌, inl, inr, Bool, true, false, Option, none, some, List, [], ◌∷◌,
  ◌++◌, arith, All,
}
use mathlib.Core.List.{reverse, reverse-cons}
use install_scope.Core.Events.{
  Event, Payload, session_start, fs_write, fs_read, net_connect, dns_query, proc_spawn, heartbeat,
  session_end, SessionEnd,
}
use install_scope.Core.Rules.{end_or, find_end, session_completeness}

abbrev pub is_end : Payload → Bool
is_end (session_end _) = true
is_end _ = false

abbrev pub HasNoEnd : List Event → Type 0
HasNoEnd = All (λ event. is_end event.payload ≡ false)

-- The last `session_end` of a recording.
pub data LastEnd (end : SessionEnd) : List Event → Type 0 where
  last_here :
      {event : Event} {rest : List Event}
      → event.payload ≡ session_end end
      → HasNoEnd rest
      → LastEnd end (event ∷ rest)
  last_later : {event : Event} {rest : List Event} → LastEnd end rest → LastEnd end (event ∷ rest)

abbrev or_else : Option SessionEnd → Option SessionEnd → Option SessionEnd
or_else none o = o
or_else (some end) o = some end

end_or-or_else :
    (payload : Payload) (o p : Option SessionEnd)
    → end_or payload (or_else o p) ≡ or_else (end_or payload o) p
end_or-or_else (session_end end) o p = refl
end_or-or_else _ o p = refl

find_end-append : (xs ys : List Event) → find_end (xs ++ ys) ≡ or_else (find_end xs) (find_end ys)
find_end-append [] ys = refl
find_end-append (e ∷ xs) ys =
    ap (end_or e.payload) (find_end-append xs ys)
    ∙ end_or-or_else e.payload (find_end xs) (find_end ys)

-- The search from the end, one event at a time from the front.
find_end-reverse :
    (e : Event) (rest : List Event)
    → find_end (reverse (e ∷ rest)) ≡ or_else (find_end (reverse rest)) (end_or e.payload none)
find_end-reverse e rest =
    ap find_end (reverse-cons e rest) ∙ find_end-append (reverse rest) (e ∷ [])

end_here :
    (payload : Payload)
    → ((end : SessionEnd) × (payload ≡ session_end end) × (end_or payload none ≡ some end))
      ⊎ ((is_end payload ≡ false) × (end_or payload none ≡ none))
end_here (session_end end) = inl (end, refl, refl)
end_here (session_start _) = inr (refl, refl)
end_here (fs_write _) = inr (refl, refl)
end_here (fs_read _) = inr (refl, refl)
end_here (net_connect _) = inr (refl, refl)
end_here (dns_query _) = inr (refl, refl)
end_here (proc_spawn _) = inr (refl, refl)
end_here (heartbeat _) = inr (refl, refl)

-- The search finds the last end, or there is none.
LastEnd-cases :
    (events : List Event)
    → ((end : SessionEnd) × LastEnd end events × (find_end (reverse events) ≡ some end))
      ⊎ (HasNoEnd events × (find_end (reverse events) ≡ none))
LastEnd-cases [] = inr (tt, refl)
LastEnd-cases (e ∷ rest) = elim (LastEnd-cases rest) [
  | inl (end, last, found) ↦ inl (
    end,
    last_later last,
    find_end-reverse e rest ∙ ap (λ o. or_else o (end_or e.payload none)) found,
  )
  | inr (no_end, missing) ↦
      let step = find_end-reverse e rest ∙ ap (λ o. or_else o (end_or e.payload none)) missing in
      elim (end_here e.payload) [
        | inl (end, is, found) ↦ inl (end, last_here is no_end, step ∙ found)
        | inr (not_end, none_here) ↦ inr ((not_end, no_end), step ∙ none_here)
      ]
]

not_both_ends : (end : SessionEnd) (events : List Event) → LastEnd end events → ¬ HasNoEnd events
not_both_ends end [] h _ = elim h [ ]
not_both_ends end (e ∷ rest) (last_here is _) (not_end, _) = ground arith
not_both_ends end (e ∷ rest) (last_later last) (_, no_end) = not_both_ends end rest last no_end

-- Two last ends of a recording are one.
pub LastEnd-unique :
    (end other : SessionEnd) (events : List Event)
    → LastEnd end events
    → LastEnd other events
    → session_end end ≡ session_end other
LastEnd-unique end other [] h _ = elim h [ ]
LastEnd-unique end other (e ∷ rest) (last_here p _) (last_here q _) = sym p ∙ q
LastEnd-unique end other (e ∷ rest) (last_here _ n) (last_later k) =
    absurd (not_both_ends other rest k n)
LastEnd-unique end other (e ∷ rest) (last_later h) (last_here _ n) =
    absurd (not_both_ends end rest h n)
LastEnd-unique end other (e ∷ rest) (last_later h) (last_later k) =
    LastEnd-unique end other rest h k

-- A recording is whole exactly when its last `session_end` says so; without one it is partial.
pub session_completeness_iff :
    (events : List Event)
    → ((session_completeness events).0 ≡ false)
      ↔ ((end : SessionEnd) × LastEnd end events × (end.complete ≡ true))
unfolding session_completeness
session_completeness_iff events = elim (LastEnd-cases events) [
  | inl (end, last, found) ↦ (
    λ h. (end, last, ground (arith)),
    λ (other, last', whole).
        let same : end ≡ other = ground (arith, LastEnd-unique end other events last last') in
        ground arith,
  )
  | inr (no_end, missing) ↦
      (λ h. ground arith, λ (end, last, _). absurd (not_both_ends end events last no_end))
]
