-- ===== src/Convert.antt =====
-- oscam-simples.c: conversions between numbers, byte buffers and text. A buffer or a text is the
-- list of its bytes; a text has no byte 0, and reading at its end gives the 0 that closes it.
pub mod Hex
pub mod Bytes
pub mod Text
pub mod Clock
pub mod Address
pub mod Serial
mod Tests
