-- ===== src/Text.antt =====
-- Go's `strings` and `strconv`, as far as the program uses them, over texts of ASCII codes. On
-- ASCII a byte, a rune and a code are one thing.
mod Defs
mod Equality
pub mod Laws
pub mod Number
unfoldable pub use Defs.*
pub use Equality.*
