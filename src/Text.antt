-- ===== src/Text.antt =====
-- Go strings that hold valid UTF-8, as lists of code points, and the functions of package strings
-- that the program calls on them.
mod Defs
mod Laws
mod Trim
mod Print
pub use Laws.*
pub use Trim.{trim_space-trim_space, trim_space_none}
unfoldable pub use Defs.*
unfoldable pub use Print.*
