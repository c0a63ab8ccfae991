-- ===== src/Prelude/Strings.antt =====
-- Go strings as lists of bytes, with the functions of Go's `strings` package that the program
-- calls.
mod Text
mod Space
unfoldable pub use Text.*
unfoldable pub use Space.*
