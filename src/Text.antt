-- ===== src/Text.antt =====
-- What the program uses of the standard library's `str`. A text is the list of its code points.
mod Defs
pub mod Number
pub mod Laws
pub mod Trim
unfoldable pub use Defs.*
