-- ===== src/Abi/Arguments.antt =====
-- abi/src/lib.rs: what `ProcRecord::arg` returns.
use install_scope.Common.{
  ℕ, ◌*◌, ◌+◌, ◌<◌, ◌≤◌, ◌≡◌, ◌↔◌, refl, sym, ap, ap₂, ◌∙◌, inl, inr, true, false, suc, Option,
  none, some, List, [], ◌∷◌, ◌++◌, leb, ◌||◌, ◌==◌, if◌then◌else◌, arith, length, length-append,
  take, drop, take-drop, take-full_append, drop-full_append, length-take_of_le, All, Bool-cases,
  Option-cases,
}
use mathlib.Core.Path.{subst}
use install_scope.Abi.{ProcRecord, argv_arg_len, argv_max_args, until_nul, slot, up_to_nul, arg}

-- Nothing, or a NUL first.
abbrev pub IsEnded : List ℕ → Type 0
IsEnded [] = Unit
IsEnded (b ∷ _) = (b == 0) ≡ true

-- The bytes up to the first NUL of a slot, and what follows them.
abbrev pub IsArgument : List ℕ → List ℕ → Type 0
IsArgument s a = All (λ b. (b == 0) ≡ false) a × ((rest : List ℕ) × (s ≡ a ++ rest) × IsEnded rest)

until_nul-le : (s : List ℕ) → until_nul s ≤ length s
until_nul-le [] = omega arith
until_nul-le (b ∷ s) = ground (arith, until_nul-le s)

take-until_nul : (s : List ℕ) → IsArgument s (take (until_nul s) s)
take-until_nul [] = (tt, ([], refl, tt))
take-until_nul (b ∷ s) = elim (Bool-cases (b == 0)) [
  | inl nul ↦ rw (nul, until_nul) (tt, (b ∷ s, refl, nul))
  | inr other ↦
      rw (other, until_nul)
        (let (lacks, (rest, e, ended)) = take-until_nul s in
          ((other, lacks), (rest, ap (◌∷◌ b) e, ended)))
]

-- What is up to the first NUL is all of that.
until_nul-append :
    (a rest : List ℕ)
    → All (λ b. (b == 0) ≡ false) a
    → IsEnded rest
    → until_nul (a ++ rest) ≡ length a
until_nul-append [] [] h ended = refl
until_nul-append [] (b ∷ rest) h ended = rw ended refl
until_nul-append (b ∷ a) rest (other, h) ended = rw other (ap suc (until_nul-append a rest h ended))

up_to_nul_iff : (s a : List ℕ) → (up_to_nul (some s) ≡ some a) ↔ IsArgument s a
up_to_nul_iff s a = (
  λ h.
      let e : take (until_nul s) s ≡ a = ground (arith, until_nul-le s) in
      subst (IsArgument s) e (take-until_nul s),
  λ (lacks, (rest, e, ended)).
      let n = ap until_nul e ∙ until_nul-append a rest lacks ended in
      let cut = ap₂ take n e ∙ take-full_append a rest in ground (arith, until_nul-le s, cut),
)

-- The bytes of one argument are at a place of the buffer: behind those of the arguments before it.
pub record HasSlot (argv : List ℕ) (index : ℕ) (s : List ℕ) : Type 0 where
  pub before : List ℕ
  pub after : List ℕ
  pub laid_out : argv ≡ before ++ (s ++ after)
  pub start : length before ≡ index * 256
  pub full : length s ≡ 256

within_iff :
    (n m : ℕ) (t s : List ℕ) → ((if leb n m then some t else none) ≡ some s) ↔ ((n ≤ m) × (t ≡ s))
within_iff n m t s = ground arith

slot-eq-some :
    (argv : List ℕ) (start : ℕ) (s : List ℕ)
    → slot argv start ≡ some s
    → (start + argv_arg_len ≤ length argv) × (take argv_arg_len (drop start argv) ≡ s)
slot-eq-some argv start s h =
    (within_iff (start + argv_arg_len) (length argv) (take argv_arg_len (drop start argv)) s).0 h

slot-HasSlot :
    (argv : List ℕ) (index : ℕ) (s : List ℕ)
    → slot argv (index * argv_arg_len) ≡ some s
    → HasSlot argv index s
slot-HasSlot argv index s h =
    let start = index * argv_arg_len in
    let (fits, e) = slot-eq-some argv start s h in
    let behind = drop start argv in
    let first = length-take_of_le start argv (omega (arith, fits)) in
    let whole = sym (length-append (take start argv) behind) ∙ ap length (take-drop start argv) in
    record {
      before = take start argv;
      after = drop argv_arg_len behind;
      laid_out =
          sym (take-drop start argv)
          ∙ ap (λ t. take start argv ++ t)
              (sym (take-drop argv_arg_len behind) ∙ ap (λ t. t ++ drop argv_arg_len behind) e);
      start = first;
      full =
          ap length (sym e)
          ∙ length-take_of_le argv_arg_len behind (omega (arith, fits, first, whole));
    }

HasSlot-slot :
    (argv : List ℕ) (index : ℕ) (s : List ℕ)
    → HasSlot argv index s
    → slot argv (index * argv_arg_len) ≡ some s
HasSlot-slot argv index s k =
    let behind = ap₂ drop (sym k.start) k.laid_out ∙ drop-full_append k.before (s ++ k.after) in
    let cut = ap (λ n. take n (s ++ k.after)) (sym k.full) ∙ take-full_append s k.after in
    let size =
      ap length k.laid_out
      ∙ length-append k.before (s ++ k.after)
      ∙ ap (λ n. length k.before + n) (length-append s k.after) in
    let fits : index * argv_arg_len + argv_arg_len ≤ length argv =
      omega (arith, size, k.start, k.full) in
    (within_iff (index * argv_arg_len + argv_arg_len) (length argv)
        (take argv_arg_len (drop (index * argv_arg_len) argv)) s).1
      (fits, ap (take argv_arg_len) behind ∙ cut)

guards_iff :
    (argc index : ℕ) (o : Option (List ℕ)) (a : List ℕ)
    → ((if leb argc index || leb argv_max_args index then none else o) ≡ some a)
      ↔ ((index < argc) × (index < argv_max_args) × (o ≡ some a))
guards_iff argc index o a = ground arith

-- For any record: an argument is returned exactly below the count and the number of slots, where the
-- buffer holds its slot of 256 bytes, and is the bytes of the slot up to the first NUL, which none of
-- them is; the slot ends there or goes on with a NUL.
pub arg-eq-some_iff :
    (r : ProcRecord) (index : ℕ) (a : List ℕ)
    → (arg r index ≡ some a)
      ↔ ((index < r.argc) × (index < 8) × ((s : List ℕ) × HasSlot r.argv index s × IsArgument s a))
unfolding arg
arg-eq-some_iff r index a =
    let o = slot r.argv (index * argv_arg_len) in
    let guards = guards_iff r.argc index (up_to_nul o) a in
    (
      λ h.
          let (counted, few, k) = guards.0 h in
          elim (Option-cases o) [
            | inl e ↦ absurd (ground (arith, ap up_to_nul e))
            | inr (s, e) ↦ (
              counted,
              few,
              (s, slot-HasSlot r.argv index s e, (up_to_nul_iff s a).0 (sym (ap up_to_nul e) ∙ k)),
            )
          ],
      λ (counted, few, (s, k, is)).
          guards.1
            (counted, few, ap up_to_nul (HasSlot-slot r.argv index s k) ∙ (up_to_nul_iff s a).1 is),
    )
