-- ===== src/Std/Escape.antt =====
-- `ascii::escape_default`, and the `Debug` of a `CStr` that is made of it.
pub mod Laws
use ps2hdd_rs.Prelude.{
  ℕ, ◌+◌, ◌-◌, ◌/◌, ◌%◌, Text, [], ◌∷◌, ◌++◌, ◌&&◌, ◌==◌, ltb, leb, if◌then◌else◌,
}

-- A lower-case hexadecimal digit.
unfoldable pub hex_digit : ℕ → ℕ
hex_digit n = if ltb n 10 then b'0' + n else b'a' + (n - 10)

unfoldable pub escape_default : ℕ → Text
unfolding hex_digit
escape_default c =
    if c == 0x09
    then b'\\' ∷ b't' ∷ []
    else if c == 0x0d
    then b'\\' ∷ b'r' ∷ []
    else if c == 0x0a
    then b'\\' ∷ b'n' ∷ []
    else if c == 0x27
    then b'\\' ∷ 0x27 ∷ []
    else if c == 0x22
    then b'\\' ∷ 0x22 ∷ []
    else if c == b'\\'
    then b'\\' ∷ b'\\' ∷ []
    else if leb 0x20 c && leb c 0x7e
    then c ∷ []
    else b'\\' ∷ b'x' ∷ hex_digit (c / 16) ∷ hex_digit (c % 16) ∷ []

unfoldable pub escape_bytes : Text → Text
unfolding escape_default
escape_bytes [] = []
escape_bytes (c ∷ s) = escape_default c ++ escape_bytes s

-- `{:?}` of a `CStr`.
unfoldable pub debug_cstr : Text → Text
unfolding escape_bytes
debug_cstr s = 0x22 ∷ escape_bytes s ++ 0x22 ∷ []
