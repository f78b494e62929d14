-- ===== src/Text.antt =====
-- The text of the program's files, and what `printf` and `scanf` of the C library make of numbers.
-- A text is the list of its bytes, which are taken to be ASCII.
pub mod Bytes
pub mod Scan
pub mod Print
pub mod Decimal
pub mod RoundTrip
pub mod Tokens
pub mod Words
