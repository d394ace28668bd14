-- ===== src/Text.antt =====
-- Go strings as lists of bytes, with the functions of the packages strings and encoding/hex that
-- the program calls. A literal of the source is `text "…"`.
pub mod Trim
pub mod Case
pub mod Hex
pub mod Order
pub mod Sort
pub mod Prefix
pub use Defs.{Text}
unfoldable pub use Defs.{text, ◌==◌}
pub use Defs.{eq_iff, eq_refl, eq_comm}
mod Defs
