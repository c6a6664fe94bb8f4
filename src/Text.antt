-- ===== src/Text.antt =====
-- The functions of Go's `strings` and `strconv` that the router calls, over bytes. White space,
-- letter case and separators are those of ASCII: every other byte is an ordinary letter.
mod Defs
mod Sort
mod Number
pub mod Trim
pub mod Split
pub mod Affix
pub mod Frame
unfoldable pub use Defs.*
unfoldable pub use Sort.*
unfoldable pub use Number.*
