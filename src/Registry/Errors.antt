-- ===== src/Registry/Errors.antt =====
-- registry/src/error.rs: the errors of the registry. The errors of the system and of the JSON parser are
-- their texts.
use install_scope.Common.{ℕ}
use install_scope.Common.Text.{Text}
use install_scope.Core.Errors.{CoreError}

pub data RegistryError : Type 0 where
  digest_mismatch : (expected actual : Text) → RegistryError
  invalid_digest : (value reason : Text) → RegistryError
  no_such_snapshot : (digest root : Text) → RegistryError
  no_such_version : (package_name version index : Text) → RegistryError
  too_large : (digest : Text) (limit : ℕ) → RegistryError
  malformed_entry : (line : ℕ) (path source : Text) → RegistryError
  unreadable_stream : (digest : Text) (source : CoreError) → RegistryError
  partial_recording : (package_name version reasons : Text) → RegistryError
  compression : (operation source : Text) → RegistryError
  io : (path source : Text) → RegistryError
