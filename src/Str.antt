-- ===== src/Str.antt =====
-- Python's `str` as a list of code points, with the methods that the program calls:
-- `strip`, `lstrip`, `startswith`, `split`, `int` and the printing of an integer by an f-string.
mod Number
mod Split
mod Case
unfoldable pub use Number.*
unfoldable pub use Split.*
unfoldable pub use Case.*
