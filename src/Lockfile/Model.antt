-- ===== src/Lockfile/Model.antt =====
-- lockfile/src/model.rs: packages, their sources and groups, and the lockfile that resolves them.
use install_scope.Common.{
  ℕ, Bool, true, false, Option, none, some, List, [], ◌∷◌, ◌++◌, filter, find, ◌==◌, ◌||◌,
  if◌then◌else◌,
}
use install_scope.Common.Text.{Text, text, text_eq, split_where}
use install_scope.Common.Text.Order.{text_cmp}
use install_scope.Common.Compare.{Comparison, lexicographic, compare_by}
use mathlib.Core.List.{reverse}

pub data Source : Type 0 where
  remote : (url integrity : Option Text) → Source
  git : (url : Text) → Source
  directory : (path : Text) → Source
  workspace : (path : Text) → Source
  unknown : (raw : Text) → Source

abbrev pub integrity : Source → Option Text
integrity (remote _ hash) = hash
integrity (git _) = none
integrity (directory _) = none
integrity (workspace _) = none
integrity (unknown _) = none

abbrev pub url : Source → Option Text
url (remote address _) = address
url (git address) = some address
url (directory _) = none
url (workspace _) = none
url (unknown _) = none

abbrev pub is_external : Source → Bool
is_external (remote _ _) = true
is_external (git _) = true
is_external (unknown _) = true
is_external (directory _) = false
is_external (workspace _) = false

abbrev pub kind : Source → Text
kind (remote _ _) = text "remote"
kind (git _) = text "git"
kind (directory _) = text "directory"
kind (workspace _) = text "workspace"
kind (unknown _) = text "unknown"

-- `Display for Source`
abbrev pub display_source : Source → Text
display_source (remote (some url) _) = kind (remote (some url) none) ++ text " " ++ url
display_source (remote none _) = text "remote"
display_source (git url) = kind (git url) ++ text " " ++ url
display_source (directory path) = kind (directory path) ++ text " " ++ path
display_source (workspace path) = kind (workspace path) ++ text " " ++ path
display_source (unknown raw) = text "unknown " ++ raw

pub record Groups : Type 0 where
  pub dev : Bool
  pub optional : Bool

abbrev pub prod : Groups
prod = record { dev = false; optional = false }

-- `Display for Groups`
abbrev pub display_groups : Groups → Text
display_groups g =
    if g.dev
    then (if g.optional then text "dev, optional" else text "dev")
    else (if g.optional then text "optional" else text "prod")

pub record Package : Type 0 where
  pub name : Text
  pub version : Text
  pub alias : Option Text
  pub source : Source
  pub groups : Groups
  pub has_install_script : Option Bool
  pub key : Text

pub record Identity : Type 0 where
  pub name : Text
  pub version : Text

-- The derived order: by name, then by version.
abbrev pub identity_cmp : Comparison Identity
identity_cmp =
    lexicographic (compare_by (λ i. i.name) text_cmp) (compare_by (λ i. i.version) text_cmp)

abbrev pub identity : Package → Identity
identity p = record { name = p.name; version = p.version }

abbrev at_version : Text → Text → Text
at_version name [] = name
at_version name (c ∷ version) = name ++ text "@" ++ (c ∷ version)

abbrev pub label : Package → Text
label p = at_version p.name p.version

-- `Display for Identity`
abbrev pub display_identity : Identity → Text
display_identity i = at_version i.name i.version

pub data Ecosystem : Type 0 where
  npm pnpm : Ecosystem

abbrev pub ecosystems : List Ecosystem
ecosystems = npm ∷ pnpm ∷ []

abbrev pub lockfile_name : Ecosystem → Text
lockfile_name npm = text "package-lock.json"
lockfile_name pnpm = text "pnpm-lock.yaml"

abbrev pub program : Ecosystem → Text
program npm = text "npm"
program pnpm = text "pnpm"

abbrev pub ecosystem_eq : Ecosystem → Ecosystem → Bool
ecosystem_eq npm npm = true
ecosystem_eq pnpm pnpm = true
ecosystem_eq _ _ = false

abbrev is_separator : ℕ → Bool
is_separator c = c == b'/' || c == b'\\'

abbrev first_or : Text → List Text → Text
first_or path [] = path
first_or path (piece ∷ _) = piece

-- `path.rsplit(['/', '\\']).next().unwrap_or(path)`
abbrev pub file_name : Text → Text
file_name path = first_or path (reverse (split_where is_separator path))

abbrev pub from_path : Text → Option Ecosystem
from_path path = find (λ e. text_eq (lockfile_name e) (file_name path)) ecosystems

pub record Lockfile : Type 0 where
  pub ecosystem : Ecosystem
  pub declared_version : Text
  pub packages : List Package

abbrev pub external : Lockfile → List Package
external l = filter (λ p. is_external p.source) l.packages

abbrev pub entries_named : Text → Lockfile → List Package
entries_named name l = filter (λ p. text_eq p.name name) l.packages
