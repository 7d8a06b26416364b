-- ===== src/Core/Rules/Commands/Interpreters.antt =====
-- core/src/rules.rs: a pipe into an interpreter, as `pipes_download_to_shell` looks for it.
use install_scope.Common.{
  ℕ, ◌≡◌, ◌⊎◌, refl, sym, ap, ◌∙◌, inl, inr, true, false, none, List, [], ◌∷◌, ◌++◌, ◌==◌, All,
  All-append, Bool, Any, Any-map, Any-append_iff, arith,
}
use mathlib.Core.Path.{subst, subst⁻¹}
use mathlib.Core.List.{tail, append_assoc}
use install_scope.Common.Text.{
  Text, text, is_whitespace, strip_prefix, split, split_where, split_where-append,
  split_where-first, split_where-ne-nil, trim, trim-kept, trim_start_text, trim_start_text-none,
  trim_start_text-once, IsPrefix,
}
use install_scope.Core.Rules.Commands.{interpreters, piped_command}
use install_scope.Core.Rules.Commands.Piped.{PipesIntoInterpreter}

-- The programs that execute what they read.
pub data IsInterpreter : Text → Type 0 where
  is_sh : IsInterpreter (text "sh")
  is_bash : IsInterpreter (text "bash")
  is_dash : IsInterpreter (text "dash")
  is_zsh : IsInterpreter (text "zsh")
  is_python : IsInterpreter (text "python")
  is_python3 : IsInterpreter (text "python3")
  is_perl : IsInterpreter (text "perl")
  is_ruby : IsInterpreter (text "ruby")
  is_node : IsInterpreter (text "node")

record HasShape (name : Text) : Type 0 where
  first : ℕ
  inner : Text
  last : ℕ
  written : name ≡ first ∷ (inner ++ last ∷ [])
  first_visible : is_whitespace first ≡ false
  last_visible : is_whitespace last ≡ false
  no_pipe : All (λ c. (c == b'|') ≡ false) name
  no_sudo : (r : Text) → strip_prefix (text "sudo ") (name ++ r) ≡ none

IsInterpreter-HasShape : {name : Text} → IsInterpreter name → HasShape name
unfolding is_whitespace strip_prefix
IsInterpreter-HasShape is_sh = record {
  first = b's';
  inner = text "";
  last = b'h';
  written = refl;
  first_visible = refl;
  last_visible = refl;
  no_pipe = (refl, (refl, tt));
  no_sudo = λ r. refl;
}
IsInterpreter-HasShape is_bash = record {
  first = b'b';
  inner = text "as";
  last = b'h';
  written = refl;
  first_visible = refl;
  last_visible = refl;
  no_pipe = (refl, (refl, (refl, (refl, tt))));
  no_sudo = λ r. refl;
}
IsInterpreter-HasShape is_dash = record {
  first = b'd';
  inner = text "as";
  last = b'h';
  written = refl;
  first_visible = refl;
  last_visible = refl;
  no_pipe = (refl, (refl, (refl, (refl, tt))));
  no_sudo = λ r. refl;
}
IsInterpreter-HasShape is_zsh = record {
  first = b'z';
  inner = text "s";
  last = b'h';
  written = refl;
  first_visible = refl;
  last_visible = refl;
  no_pipe = (refl, (refl, (refl, tt)));
  no_sudo = λ r. refl;
}
IsInterpreter-HasShape is_python = record {
  first = b'p';
  inner = text "ytho";
  last = b'n';
  written = refl;
  first_visible = refl;
  last_visible = refl;
  no_pipe = (refl, (refl, (refl, (refl, (refl, (refl, tt))))));
  no_sudo = λ r. refl;
}
IsInterpreter-HasShape is_python3 = record {
  first = b'p';
  inner = text "ython";
  last = b'3';
  written = refl;
  first_visible = refl;
  last_visible = refl;
  no_pipe = (refl, (refl, (refl, (refl, (refl, (refl, (refl, tt)))))));
  no_sudo = λ r. refl;
}
IsInterpreter-HasShape is_perl = record {
  first = b'p';
  inner = text "er";
  last = b'l';
  written = refl;
  first_visible = refl;
  last_visible = refl;
  no_pipe = (refl, (refl, (refl, (refl, tt))));
  no_sudo = λ r. refl;
}
IsInterpreter-HasShape is_ruby = record {
  first = b'r';
  inner = text "ub";
  last = b'y';
  written = refl;
  first_visible = refl;
  last_visible = refl;
  no_pipe = (refl, (refl, (refl, (refl, tt))));
  no_sudo = λ r. refl;
}
IsInterpreter-HasShape is_node = record {
  first = b'n';
  inner = text "od";
  last = b'e';
  written = refl;
  first_visible = refl;
  last_visible = refl;
  no_pipe = (refl, (refl, (refl, (refl, tt))));
  no_sudo = λ r. refl;
}

IsInterpreter-listed : {name : Text} → IsInterpreter name → Any (λ n. name ≡ n) interpreters
IsInterpreter-listed is_sh = Any.here refl
IsInterpreter-listed is_bash = Any.there (Any.here refl)
IsInterpreter-listed is_dash = Any.there (Any.there (Any.here refl))
IsInterpreter-listed is_zsh = Any.there (Any.there (Any.there (Any.here refl)))
IsInterpreter-listed is_python = Any.there (Any.there (Any.there (Any.there (Any.here refl))))
IsInterpreter-listed is_python3 =
    Any.there (Any.there (Any.there (Any.there (Any.there (Any.here refl)))))
IsInterpreter-listed is_perl =
    Any.there (Any.there (Any.there (Any.there (Any.there (Any.there (Any.here refl))))))
IsInterpreter-listed is_ruby =
    Any.there
      (Any.there (Any.there (Any.there (Any.there (Any.there (Any.there (Any.here refl)))))))
IsInterpreter-listed is_node = Any.there (
    Any.there
      (Any.there (Any.there (Any.there (Any.there (Any.there (Any.there (Any.here refl))))))))

module _ (name : Text) (shape : HasShape name) where
  laid_out :
      (before rest : Text)
      → before ++ (name ++ rest) ≡ before ++ (shape.first ∷ (shape.inner ++ shape.last ∷ rest))
  laid_out before rest =
      ap (λ n. before ++ (n ++ rest)) shape.written
      ∙ ap (λ l. before ++ (shape.first ∷ l)) (append_assoc shape.inner (shape.last ∷ []) rest)

  trim_name :
      (blanks rest : Text)
      → All (λ c. is_whitespace c ≡ true) blanks
      → (kept : Text) × (trim (blanks ++ (name ++ rest)) ≡ name ++ kept)
  trim_name blanks rest white =
      let (kept, e) =
        trim-kept blanks shape.first shape.inner shape.last rest white shape.first_visible
          shape.last_visible in
      (kept, ap trim (laid_out blanks rest) ∙ e ∙ sym (laid_out [] kept))

  trim_sudo :
      (blanks rest : Text)
      → All (λ c. is_whitespace c ≡ true) blanks
      → (kept : Text) × (trim (blanks ++ (text "sudo " ++ (name ++ rest)))
          ≡ text "sudo " ++ (name ++ kept))
  unfolding is_whitespace
  trim_sudo blanks rest white =
      let (kept, e) =
        trim-kept blanks b's' (text "udo " ++ shape.first ∷ shape.inner) shape.last rest white refl
          shape.last_visible in
      (
        kept,
        ap (λ t. trim (blanks ++ t)) (laid_out (text "sudo ") rest)
            ∙ e
            ∙ sym (laid_out (text "sudo ") kept),
      )

  piped_command-IsPrefix :
      (blanks root rest : Text)
      → All (λ c. is_whitespace c ≡ true) blanks
      → (root ≡ []) ⊎ (root ≡ text "sudo ")
      → IsPrefix name (piped_command (blanks ++ (root ++ (name ++ rest))))
  unfolding piped_command
  piped_command-IsPrefix blanks root rest white (inl e) =
      let (kept, first) = trim_name blanks rest white in
      let (left, again) = trim_name [] kept tt in
      (
        left,
        ap (λ r. piped_command (blanks ++ (r ++ (name ++ rest)))) e
            ∙ ap (λ t. trim (trim_start_text (text "sudo ") t)) first
            ∙ ap trim (trim_start_text-none (text "sudo ") (name ++ kept) (shape.no_sudo kept))
            ∙ again,
      )
  piped_command-IsPrefix blanks root rest white (inr e) =
      let (kept, first) = trim_sudo blanks rest white in
      let (left, again) = trim_name [] kept tt in
      (
        left,
        ap (λ r. piped_command (blanks ++ (r ++ (name ++ rest)))) e
            ∙ ap (λ t. trim (trim_start_text (text "sudo ") t)) first
            ∙ ap trim (trim_start_text-once b's' (text "udo ") (name ++ kept) (shape.no_sudo kept))
            ∙ again,
      )

-- The pieces behind the first one keep what stands behind a separator.
Any-tail_append :
    {P : Text → Type 0} (xs ys : List Text) → (xs ≡ [] → ⊥) → Any P ys → Any P (tail (xs ++ ys))
Any-tail_append [] ys h k = absurd (h refl)
Any-tail_append (x ∷ xs) ys h k = (Any-append_iff xs).1 (inr k)

blank_no_pipe : (s : Text) → All (λ c. is_whitespace c ≡ true) s → All (λ c. (c == b'|') ≡ false) s
unfolding is_whitespace
blank_no_pipe [] h = tt
blank_no_pipe (c ∷ s) (white, h) = (ground arith, blank_no_pipe s h)

root_no_pipe : (s : Text) → (s ≡ []) ⊎ (s ≡ text "sudo ") → All (λ c. (c == b'|') ≡ false) s
root_no_pipe s (inl e) = subst⁻¹ (All (λ c. (c == b'|') ≡ false)) e tt
root_no_pipe s (inr e) =
    subst⁻¹ (All (λ c. (c == b'|') ≡ false)) e (refl, (refl, (refl, (refl, (refl, tt)))))

pub piped_name-PipesIntoInterpreter :
    (left blanks root name rest : Text)
    → All (λ c. is_whitespace c ≡ true) blanks
    → (root ≡ []) ⊎ (root ≡ text "sudo ")
    → IsInterpreter name
    → PipesIntoInterpreter (left ++ b'|' ∷ (blanks ++ (root ++ (name ++ rest))))
unfolding split
piped_name-PipesIntoInterpreter left blanks root name rest white is_root is_name =
    let bar : ℕ → Bool = λ c. c == b'|' in
    let shape = IsInterpreter-HasShape is_name in
    let front = blanks ++ (root ++ name) in
    let behind = blanks ++ (root ++ (name ++ rest)) in
    let joined : behind ≡ front ++ rest =
      ap (λ t. blanks ++ t) (sym (append_assoc root name rest))
      ∙ sym (append_assoc blanks (root ++ name) rest) in
    let lacks =
      All-append _ blanks (root ++ name) (blank_no_pipe blanks white)
        (All-append _ root name (root_no_pipe root is_root) shape.no_pipe) in
    let (piece, pieces, e) = split_where-first bar front rest lacks in
    let segment : front ++ piece ≡ blanks ++ (root ++ (name ++ piece)) =
      append_assoc blanks (root ++ name) piece
      ∙ ap (λ t. blanks ++ t) (append_assoc root name piece) in
    let (kept, starts) = piped_command-IsPrefix name shape blanks root piece white is_root in
    let runs : Any (λ n. IsPrefix n (piped_command (front ++ piece))) interpreters =
      Any-map
        (λ n same.
          subst (λ m. IsPrefix m (piped_command (front ++ piece))) same
            (kept, ap piped_command segment ∙ starts))
        (IsInterpreter-listed is_name) in
    let cut = split_where-append bar left b'|' behind refl in
    let last : split_where bar behind ≡ (front ++ piece) ∷ pieces =
      ap (split_where bar) joined ∙ e in
    subst⁻¹ (λ l. Any (λ s. Any (λ n. IsPrefix n (piped_command s)) interpreters) (tail l)) cut
      (Any-tail_append (split_where bar left) (split_where bar behind) (split_where-ne-nil bar left)
        (subst⁻¹ (Any (λ s. Any (λ n. IsPrefix n (piped_command s)) interpreters)) last
          (Any.here runs)))
