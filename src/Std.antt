-- ===== src/Std.antt =====
-- The parts of Go's standard library that the program's own logic rests on: texts, numbers in
-- digits, base64, hexadecimal, network masks and the line scanner.
pub mod Strings
pub mod Strconv
pub mod Base64
pub mod Hex
pub mod Scanner
pub mod Mask
pub mod Sort
