-- ===== src/Text.antt =====
-- What the Go code uses of Go's standard library on texts: encoding/base64, encoding/hex, bufio
-- and strings. A text is the list of its bytes.
pub mod Base64
pub mod Hex
pub mod Lines
mod Tests
