-- ===== src/Text.antt =====
-- Go strings as lists of bytes, with the functions of the standard library's `strings` that the
-- driver calls.
mod Defs
pub mod Search
pub mod Parts
pub mod Trim
unfoldable pub use Defs.*
