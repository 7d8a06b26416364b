-- ===== src/Lockfile/Tests.antt =====
-- Tests of the lockfile diff on two small lockfiles, and an instance of each theorem about it.
use install_scope.Common.Text.Order.{text_cmp}
use install_scope.Common.Sort.{sort_by}
use install_scope.Common.{◌≡◌, refl, ◌↔◌, none, some, List, [], ◌∷◌, map, Any}
use install_scope.Common.Text.{Text, text, text_eq, split_where}
use install_scope.Lockfile.Model.{
  Package, Identity, Lockfile, Source, remote, git, npm, prod, from_path,
}
use install_scope.Lockfile.Diff.{
  compare_same_identity, index_from, diff, summary, recordable_identities,
}
use install_scope.Lockfile.Diff.Entries.{entry}
use install_scope.Lockfile.Diff.Renewal.{BringsCode}
use install_scope.Lockfile.Diff.Recording.{recordable_identities-diff_iff}

abbrev package_at : Text → Text → Source → Package
package_at name version source = record {
  name = name;
  version = version;
  alias = none;
  source = source;
  groups = prod;
  has_install_script = none;
  key = name;
}

abbrev registry : Text → Source
registry hash = remote none (some hash)

abbrev locked : List Package → Lockfile
locked packages = record { ecosystem = npm; declared_version = text "3"; packages = packages }

abbrev old_lock : Lockfile
old_lock = locked (
    package_at (text "debug") (text "4.3.3") (registry (text "a"))
    ∷ package_at (text "ms") (text "2.1.2") (registry (text "b"))
    ∷ package_at (text "zap") (text "1.0.0") (registry (text "c"))
    ∷ [])

abbrev new_lock : Lockfile
new_lock = locked (
    package_at (text "debug") (text "4.3.4") (registry (text "d"))
    ∷ package_at (text "ms") (text "2.1.2") (registry (text "x"))
    ∷ package_at (text "left") (text "0.1.0") (git (text "git://h/left"))
    ∷ [])

changes_between :
    map summary (diff old_lock new_lock).changes
    ≡ text "debug 4.3.3 to 4.3.4"
      ∷ text "added left@0.1.0"
      ∷ text "ms@2.1.2 same version, different tarball hash"
      ∷ text "removed zap@1.0.0"
      ∷ []
unfolding summary diff sort_by index_from text_cmp compare_same_identity text_eq
changes_between = refl

no_changes : (diff old_lock old_lock).changes ≡ []
unfolding diff sort_by index_from text_cmp compare_same_identity text_eq
no_changes = refl

windows_path : from_path (text "C:\\app\\package-lock.json") ≡ some npm
unfolding split_where text_eq
windows_path = refl

abbrev ms : Identity
ms = record { name = text "ms"; version = text "2.1.2" }

recordable_identities-diff_iff_example :
    Any (λ j. j ≡ ms) (recordable_identities (diff old_lock new_lock))
    ↔ BringsCode (entry ms old_lock) (entry ms new_lock)
recordable_identities-diff_iff_example = recordable_identities-diff_iff old_lock new_lock ms
