-- ===== src/Core/Errors.antt =====
-- core/src/error.rs: the errors of the event stream, and results that may be one. The underlying error
-- of the JSON library and of the file system is its text.
use install_scope.Common.{ℕ, [], ◌∷◌, ◌++◌}
use install_scope.Common.Text.{Text, text, join_with}
use install_scope.Common.Text.Decimal.{decimal}

pub data CoreError : Type 0 where
  malformed_event : ℕ → Text → CoreError
  unsupported_schema_version : ℕ → ℕ → CoreError
  missing_session_end : CoreError
  serialize : Text → CoreError
  io : Text → Text → CoreError

-- The messages of the `#[error(…)]` attributes.
unfoldable pub display_error : CoreError → Text
unfolding decimal join_with
display_error (malformed_event line source) =
    join_with [] (text "malformed event on line " ∷ decimal line ∷ text ": " ∷ source ∷ [])
display_error (unsupported_schema_version found supported) = join_with [] (
    text "unsupported schema_version "
    ∷ decimal found
    ∷ text "; this build understands "
    ∷ decimal supported
    ∷ [])
display_error missing_session_end =
    text "recording has no session_end event; completeness unknown, must render as PARTIAL"
display_error (serialize source) = text "failed to serialize event: " ++ source
display_error (io path source) =
    join_with [] (text "i/o error on " ∷ path ∷ text ": " ∷ source ∷ [])

pub data Fallible {ℓ} (A : Type ℓ) : Type ℓ where
  ok : A → Fallible A
  err : CoreError → Fallible A

infixl 5 ◌>>=◌
abbrev pub ◌>>=◌ {ℓ κ} : {A : Type ℓ} {B : Type κ} → Fallible A → (A → Fallible B) → Fallible B
ok a >>= f = f a
err e >>= f = err e
