-- ===== src/Text.antt =====
-- The functions of Go's `strings` and `strconv` that the source calls, on strings of bytes.
pub mod Trim
pub mod Split
pub mod Search
pub mod Decimal
