-- ===== src/Common/Text.antt =====
-- Rust's `str` as the list of its code points, with the methods of `str` that the program calls.
-- Byte lengths are written out (`len_utf8`); every other method is the same on code points.
mod Scan
mod Split
mod Trim
pub mod Order
pub mod Decimal
pub mod Utf8
pub mod Lines
unfoldable pub use Scan.*
unfoldable pub use Split.*
unfoldable pub use Trim.*
pub use Prim.Native.String.{String}
