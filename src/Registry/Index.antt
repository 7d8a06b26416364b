-- ===== src/Registry/Index.antt =====
-- registry/src/index.rs: the append-only index of recordings. The files and the JSON of an entry are
-- parameters: what is read at a path, what a write leaves there, and an entry's line.
pub mod Reloading
use install_scope.Common.{
  ℕ, suc, ◌+◌, ◌⊎◌, inl, inr, Bool, true, false, not, ◌&&◌, Option, none, some, List, [], ◌∷◌, ◌++◌,
  any, filter, map, find, if◌then◌else◌, Ordering,
}
use install_scope.Registry.Errors.{RegistryError, io, malformed_entry, no_such_version}
use mathlib.Core.List.{reverse}
use install_scope.Common.Text.{Text, text, text_eq, trim}
use install_scope.Common.Text.Lines.{lines}
use install_scope.Common.Text.Order.{text_cmp}
use install_scope.Common.Sort.{sort_by}

abbrev pub index_filename : Text
index_filename = text "index.jsonl"

pub record Entry : Type 0 where
  pub package_name : Text
  pub version : Text
  pub digest : Text
  pub recorded_at : Text
  pub agent_version : Text
  pub backend : Text
  pub events : ℕ
  pub uncompressed_bytes : ℕ

abbrev pub entry_label : Entry → Text
entry_label e = e.package_name ++ text "@" ++ e.version

pub record Index : Type 0 where
  pub entries : List Entry
  pub path : Text

-- The file of the index: what reading it gives, an error, a text, or nothing if there is no file; and
-- what appending a line leaves and answers.
pub record Files (S : Type 0) : Type 0 where
  pub read : S → Text → Option (Text ⊎ Text)
  pub append_line : S → Text → Text → S × Option RegistryError

module _ {S : Type 0} (files : Files S) (decode : Text → Text ⊎ Entry)
    (encode : Entry → Text ⊎ Text) where
  abbrev pub Loaded : Type 0
  Loaded = RegistryError ⊎ List Entry

  abbrev pub with_entry : Entry → Loaded → Loaded
  with_entry e (inl error) = inl error
  with_entry e (inr entries) = inr (e ∷ entries)

  abbrev pub decoded : ℕ → Text → Text ⊎ Entry → Loaded → Loaded
  decoded number path (inl source) later = inl (malformed_entry number path source)
  decoded number path (inr e) later = with_entry e later

  abbrev pub is_blank_line : Text → Bool
  is_blank_line line = elim (trim line) [ [] ↦ true | _ ∷ _ ↦ false ]

  -- The loop over the lines, from the offset of the first.
  unfoldable pub load_lines : Text → ℕ → List Text → Loaded
  load_lines path offset [] = inr []
  load_lines path offset (line ∷ rest) =
      let later = load_lines path (offset + 1) rest in
      if is_blank_line line then later else decoded (offset + 1) path (decode line) later

  abbrev pub indexed : Text → Loaded → RegistryError ⊎ Index
  indexed path (inl error) = inl error
  indexed path (inr entries) = inr (record { entries = entries; path = path })

  abbrev pub from_file : Text → Option (Text ⊎ Text) → RegistryError ⊎ Index
  from_file path none = inr (record { entries = []; path = path })
  from_file path (some (inl source)) = inl (io path source)
  from_file path (some (inr content)) = indexed path (load_lines path 0 (lines content))

  -- `Index::load` at the path of the index; an absent file is an empty index.
  unfoldable pub load : S → Text → RegistryError ⊎ Index
  unfolding load_lines
  load s path = from_file path (files.read s path)

  abbrev pub appended : Index → Entry → S × Option RegistryError → S × Index × Option RegistryError
  appended index entry (s, none) = (s, record index { entries = index.entries ++ entry ∷ [] }, none)
  appended index entry (s, some error) = (s, index, some error)

  abbrev pub append_encoded : S → Index → Entry → Text ⊎ Text → S × Index × Option RegistryError
  append_encoded s index entry (inl source) = (s, index, some (io index.path source))
  append_encoded s index entry (inr line) =
      appended index entry (files.append_line s index.path line)

  -- `Index::append`: the entry is in the index only once its line is written and flushed.
  unfoldable pub append : S → Index → Entry → S × Index × Option RegistryError
  append s index entry = append_encoded s index entry (encode entry)

abbrev pub is_for : Text → Text → Entry → Bool
is_for name version e = text_eq e.package_name name && text_eq e.version version

unfoldable pub latest : Index → Text → Text → Option Entry
latest index name version = find (is_for name version) (reverse index.entries)

unfoldable pub all_for : Index → Text → Text → List Entry
all_for index name version = filter (is_for name version) index.entries

-- The loop of `versions_of`, over the versions seen so far.
unfoldable pub versions_from : Text → List Entry → List Text → List Text
versions_from name [] seen = seen
versions_from name (e ∷ entries) seen = versions_from name entries (
    if text_eq e.package_name name && not (any (text_eq e.version) seen)
    then seen ++ e.version ∷ []
    else seen)

unfoldable pub versions_of : Index → Text → List Text
unfolding versions_from
versions_of index name = versions_from name index.entries []

-- `dedup`: of equal neighbours the first stays.
unfoldable pub dedup : List Text → List Text
dedup [] = []
dedup (a ∷ []) = a ∷ []
dedup (a ∷ b ∷ rest) = elim (dedup (b ∷ rest)) [
  | [] ↦ a ∷ []
  | c ∷ more ↦ if text_eq a c then a ∷ more else a ∷ c ∷ more
]

unfoldable pub packages : Index → List Text
unfolding dedup
packages index = dedup (sort_by text_cmp (map (λ e. e.package_name) index.entries))

abbrev or_no_such_version : Option Entry → Index → Text → Text → RegistryError ⊎ Entry
or_no_such_version none index name version = inl (no_such_version name version index.path)
or_no_such_version (some e) index name version = inr e

unfoldable pub require : Index → Text → Text → RegistryError ⊎ Entry
unfolding latest
require index name version = or_no_such_version (latest index name version) index name version
