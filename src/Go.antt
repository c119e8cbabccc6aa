-- ===== src/Go.antt =====
-- What the program uses of the Go language and its standard library.
pub mod Text
pub mod Plain
pub mod Table
pub mod Number
pub mod Exec
pub mod Restore
