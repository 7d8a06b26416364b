-- ===== src/Core/Rules/Commands/Piped.antt =====
-- core/src/rules.rs: `pipes_download_to_shell`, against a description without its search.
use install_scope.Common.{
  ℕ, ◌≤◌, ◌≡◌, refl, ap, ◌∙◌, ◌≢◌, ◌↔◌, inl, inr, Bool, true, false, not, Option, none, some, List,
  [], ◌∷◌, ◌++◌, arith, suc, length, any, any_iff, Any, All, get_elem?, Bool-cases, &&_iff,
  is_some_and, sym, not_true,
}
use mathlib.Core.List.{tail}
use mathlib.Core.Option.{map, some_inj}
use install_scope.Common.Text.{
  Text, text, text_eq, text_eq_iff, split, split_where, starts_with, starts_with_iff, IsPrefix,
}
use install_scope.Core.Catalog.{basename}
use install_scope.Core.Rules.Commands.{
  position, argument_after, is_word_char, contains_word, shells, downloaders, interpreters,
  piped_command, runs_interpreter, pipes_into_interpreter, downloads, is_shell, is_piped_script,
  pipes_download_to_shell,
}

-- A word of the script, between characters that are not of a word, is a downloader's name.
abbrev pub Downloads : Text → Type 0
Downloads script =
    Any (λ tool. Any (λ word. word ≡ tool) (split_where (λ c. not (is_word_char c)) script))
      downloaders

-- What follows some pipe starts with an interpreter's name.
abbrev pub PipesIntoInterpreter : Text → Type 0
PipesIntoInterpreter script =
    Any (λ segment. Any (λ name. IsPrefix name (piped_command segment)) interpreters)
      (tail (split b'|' script))

-- The argument behind the first `-c`.
abbrev pub FirstScript : List Text → Text → Type 0
FirstScript argv script =
    (before : List Text) × (after : List Text) × (argv ≡ before ++ text "-c" ∷ script ∷ after)
    × All (λ arg. arg ≢ text "-c") before

abbrev pub RunsShell : List Text → Type 0
RunsShell argv =
    (program : Text) × (rest : List Text) × (argv ≡ program ∷ rest)
    × Any (λ shell. basename program ≡ shell) shells

downloads_iff : (script : Text) → (downloads script ≡ true) ↔ Downloads script
unfolding downloads contains_word
downloads_iff script =
    any_iff (λ tool. contains_word script tool)
      (λ tool. Any (λ word. word ≡ tool) (split_where (λ c. not (is_word_char c)) script))
      (λ tool.
        any_iff (λ word. text_eq word tool) (λ word. word ≡ tool) (λ word. text_eq_iff word tool)
          (split_where (λ c. not (is_word_char c)) script))
      downloaders

pipes_into_interpreter_iff :
    (script : Text) → (pipes_into_interpreter script ≡ true) ↔ PipesIntoInterpreter script
unfolding pipes_into_interpreter runs_interpreter
pipes_into_interpreter_iff script =
    any_iff runs_interpreter
      (λ segment. Any (λ name. IsPrefix name (piped_command segment)) interpreters)
      (λ segment.
        any_iff (λ name. starts_with name (piped_command segment))
          (λ name. IsPrefix name (piped_command segment))
          (λ name. starts_with_iff name (piped_command segment)) interpreters)
      (tail (split b'|' script))

is_piped_script_iff :
    (script : Text)
    → (is_piped_script script ≡ true) ↔ (Downloads script × PipesIntoInterpreter script)
unfolding is_piped_script
is_piped_script_iff script =
    let f = downloads_iff script in
    let g = pipes_into_interpreter_iff script in
    let both = &&_iff (downloads script) (pipes_into_interpreter script) in
    (λ h. (f.0 (both.0 h).0, g.0 (both.0 h).1), λ (d, p). both.1 (f.1 d, g.1 p))

shell_named_iff :
    (program : Text)
    → (any (λ shell. text_eq (basename program) shell) shells ≡ true)
      ↔ Any (λ shell. basename program ≡ shell) shells
shell_named_iff program =
    any_iff (λ shell. text_eq (basename program) shell) (λ shell. basename program ≡ shell)
      (text_eq_iff (basename program)) shells

is_shell_iff : (argv : List Text) → (is_shell argv ≡ true) ↔ RunsShell argv
is_shell_iff [] = (λ h. ground arith, λ (_, _, e, _). ground arith)
is_shell_iff (program ∷ rest) = (
  λ h. (program, rest, refl, (shell_named_iff program).0 h),
  λ (p, r, e, h). ap is_shell e ∙ (shell_named_iff p).1 h,
)

abbrev is_flag : Text → Bool
is_flag arg = text_eq arg (text "-c")

abbrev script_of : List Text → Option Text
script_of argv = argument_after argv (position is_flag argv)

module _ (arg : Text) (argv : List Text) where
  script_of-later : is_flag arg ≡ false → script_of (arg ∷ argv) ≡ script_of argv
  unfolding position
  script_of-later h = rw h (shifted (position is_flag argv))
    where
      shifted : (o : Option ℕ) → argument_after (arg ∷ argv) (map suc o) ≡ argument_after argv o
      shifted none = refl
      shifted (some n) = refl

  script_of-now : is_flag arg ≡ true → script_of (arg ∷ argv) ≡ get_elem? argv 0
  unfolding position
  script_of-now h = rw h refl

not_flag : (arg : Text) → arg ≢ text "-c" → is_flag arg ≡ false
not_flag arg h = not_true (is_flag arg) (λ e. h ((text_eq_iff arg (text "-c")).0 e))

flag_first :
    (arg script : Text) (argv : List Text)
    → arg ≡ text "-c"
    → get_elem? argv 0 ≡ some script
    → FirstScript (arg ∷ argv) script
flag_first arg script [] flag h = ground arith
flag_first arg script (next ∷ after) flag h = (
  [],
  after,
  ap (λ a. a ∷ next ∷ after) flag ∙ ap (λ s. text "-c" ∷ s ∷ after) (some_inj.0 h),
  tt,
)

script_of-FirstScript :
    (argv : List Text) (script : Text) → script_of argv ≡ some script → FirstScript argv script
unfolding position
script_of-FirstScript [] script h = ground arith
script_of-FirstScript (arg ∷ argv) script h = elim (Bool-cases (is_flag arg)) [
  | inl flag ↦
      flag_first arg script argv ((text_eq_iff arg (text "-c")).0 flag)
        (sym (script_of-now arg argv flag) ∙ h)
  | inr other ↦
      let (before, after, e, lacks) =
        script_of-FirstScript argv script (sym (script_of-later arg argv other) ∙ h) in
      (
        arg ∷ before,
        after,
        ap (◌∷◌ arg) e,
        (λ q. ground (arith, (text_eq_iff arg (text "-c")).1 q), lacks),
      )
]

FirstScript-found :
    (before after : List Text) (script : Text)
    → All (λ arg. arg ≢ text "-c") before
    → script_of (before ++ text "-c" ∷ script ∷ after) ≡ some script
unfolding position
FirstScript-found [] after script h =
    script_of-now (text "-c") (script ∷ after) ((text_eq_iff (text "-c") (text "-c")).1 refl)
FirstScript-found (arg ∷ before) after script (other, h) =
    script_of-later arg (before ++ text "-c" ∷ script ∷ after) (not_flag arg other)
    ∙ FirstScript-found before after script h

script_of_iff :
    (argv : List Text) (script : Text) → (script_of argv ≡ some script) ↔ FirstScript argv script
script_of_iff argv script = (
  script_of-FirstScript argv script,
  λ (before, after, e, h). ap script_of e ∙ FirstScript-found before after script h,
)

-- A command line that downloads and pipes the download into an interpreter.
pub record IsDownloadPiped (argv : List Text) (truncated : Bool) : Type 0 where
  pub whole : truncated ≡ false
  pub long : 3 ≤ length argv
  pub runs_shell : RunsShell argv
  pub script : Text
  pub is_script : FirstScript argv script
  pub fetches : Downloads script
  pub pipes : PipesIntoInterpreter script

checks_iff :
    (argv : List Text) (truncated : Bool)
    → (pipes_download_to_shell argv truncated ≡ true) ↔ (
        (truncated ≡ false)
        × (3 ≤ length argv)
        × (is_shell argv ≡ true)
        × (is_some_and (script_of argv) is_piped_script ≡ true))
unfolding pipes_download_to_shell
checks_iff argv truncated = ground arith

is_some_and_iff {ℓ} :
    {A : Type ℓ} (o : Option A) (p : A → Bool)
    → (is_some_and o p ≡ true) ↔ ((a : A) × (o ≡ some a) × (p a ≡ true))
is_some_and_iff none p = (λ h. ground arith, λ (a, e, _). ground arith)
is_some_and_iff (some a) p = (λ h. (a, refl, h), λ (b, e, h). ap p (some_inj.0 e) ∙ h)

-- For every argument list: the test accepts it exactly when it is complete, has at least three
-- arguments, runs a shell, and the argument behind its first `-c` names a downloader as a word and
-- has, behind some pipe, a command that starts with an interpreter's name.
pub pipes_download_to_shell_iff :
    (argv : List Text) (truncated : Bool)
    → (pipes_download_to_shell argv truncated ≡ true) ↔ IsDownloadPiped argv truncated
pipes_download_to_shell_iff argv truncated =
    let found = is_some_and_iff (script_of argv) is_piped_script in
    let checks = checks_iff argv truncated in
    (
      λ h.
          let (whole, long, shell, some_script) = checks.0 h in
          let (script, is, piped) = found.0 some_script in
          let parts = (is_piped_script_iff script).0 piped in
          record {
            whole = whole;
            long = long;
            runs_shell = (is_shell_iff argv).0 shell;
            script = script;
            is_script = (script_of_iff argv script).0 is;
            fetches = parts.0;
            pipes = parts.1;
          },
      λ d. checks.1 (
        d.whole,
        d.long,
        (is_shell_iff argv).1 d.runs_shell,
        found.1 (
          d.script,
          (script_of_iff argv d.script).1 d.is_script,
          (is_piped_script_iff d.script).1 (d.fetches, d.pipes),
        ),
      ),
    )
