-- ===== src/Std/Format.antt =====
-- `{}` of integers in `format!`, and the parsers that read the digits back in the proofs.
pub mod Laws
use ps2hdd_rs.Prelude.{
  ℕ, zero, suc, ◌+◌, ◌-◌, ◌*◌, ◌/◌, ◌%◌, ℤ, pos, negsuc, Text, List, [], ◌∷◌, ◌++◌, Bool, ◌&&◌, ltb,
  leb, ◌==◌, if◌then◌else◌,
}

-- The digits of `n`, the last one last. Fuel above `n` is enough: a tenth is smaller.
unfoldable pub digits : ℕ → ℕ → Text
digits zero n = []
digits (suc fuel) n =
    let before = digits fuel (n / 10) in (if ltb n 10 then [] else before) ++ (b'0' + n % 10) ∷ []

-- `format!("{}", n)` of an unsigned integer.
unfoldable pub decimal : ℕ → Text
unfolding digits
decimal n = digits (suc n) n

-- `format!("{}", x)` of a `c_int`.
unfoldable pub show_int : ℤ → Text
unfolding decimal
show_int (pos n) = decimal n
show_int (negsuc n) = b'-' ∷ decimal (suc n)

abbrev pub is_digit : ℕ → Bool
is_digit c = leb b'0' c && leb c b'9'

-- Reads the digits at the front of a text, and returns the rest.
unfoldable pub read_digits : ℕ → Text → ℕ × Text
read_digits acc [] = (acc, [])
read_digits acc (c ∷ s) =
    let more = read_digits (acc * 10 + (c - b'0')) s in if is_digit c then more else (acc, c ∷ s)

-- Reads a decimal integer with an optional sign.
unfoldable pub read_int : Text → ℤ × Text
unfolding read_digits
read_int [] = (pos 0, [])
read_int (c ∷ s) =
    if c == b'-'
    then (let (n, rest) = read_digits 0 s in (negsuc (n - 1), rest))
    else (let (n, rest) = read_digits 0 (c ∷ s) in (pos n, rest))
