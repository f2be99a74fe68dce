-- ===== src/Go.antt =====
-- What the program uses of the Go language and its standard library.
pub mod Text
pub mod Decimal
pub mod Map
pub mod Net
pub mod Base64
