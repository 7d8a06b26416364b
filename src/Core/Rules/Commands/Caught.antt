-- ===== src/Core/Rules/Commands/Caught.antt =====
-- core/src/rules.rs: `pipes_download_to_shell` on the command lines that it is meant for.
use install_scope.Common.{◌≡◌, ◌≢◌, ◌⊎◌, true, List, [], ◌∷◌, ◌++◌, All}
use install_scope.Common.Text.{Text, text, is_whitespace}
use install_scope.Core.Rules.Commands.Interpreters.{IsInterpreter}
use install_scope.Core.Rules.Commands.Downloaders.{IsDownloader, StartsApart, EndsApart}

-- A script that calls a downloader, and behind a pipe after it an interpreter, perhaps by `sudo`.
pub record PipesDownload (script : Text) : Type 0 where
  pub before : Text
  pub tool : Text
  pub between : Text
  pub blanks : Text
  pub root : Text
  pub name : Text
  pub rest : Text
  pub written :
      script ≡ before ++ (tool ++ (between ++ b'|' ∷ (blanks ++ (root ++ (name ++ rest)))))
  pub ends_apart : EndsApart before
  pub is_tool : IsDownloader tool
  pub starts_apart : StartsApart between
  pub white : All (λ c. is_whitespace c ≡ true) blanks
  pub is_root : (root ≡ []) ⊎ (root ≡ text "sudo ")
  pub is_name : IsInterpreter name

pub data IsShell : Text → Type 0 where
  sh : IsShell (text "sh")
  bash : IsShell (text "bash")
  dash : IsShell (text "dash")
  zsh : IsShell (text "zsh")
  ksh : IsShell (text "ksh")

-- A program by its name or by a path to it.
abbrev pub Names : Text → Text → Type 0
Names program shell = (program ≡ shell) ⊎ ((dir : Text) × (program ≡ dir ++ b'/' ∷ shell))

-- A whole command line that runs a shell on such a script, behind its first `-c`.
pub record RunsPipedDownload (argv : List Text) : Type 0 where
  pub program : Text
  pub shell : Text
  pub options : List Text
  pub script : Text
  pub arguments : List Text
  pub written : argv ≡ program ∷ (options ++ text "-c" ∷ script ∷ arguments)
  pub is_shell : IsShell shell
  pub names : Names program shell
  pub no_flag : All (λ option. option ≢ text "-c") options
  pub pipes : PipesDownload script
