-- ===== src/Std/CString.antt =====
-- `CString` and `CStr`: bytes that end at the first NUL.
pub mod Laws
use ps2hdd_rs.Prelude.{
  ℕ, zero, suc, ◌+◌, Text, bytes, List, [], ◌∷◌, ◌++◌, Bool, true, false, ◌==◌, if◌then◌else◌, ◌≡◌,
  Option, none, some, Outcome, ok, err, undefined, ◌>>?◌,
}
use ps2hdd_rs.Std.Format.{decimal}
use ps2hdd_rs.Std.Utf8.{from_utf8}

-- The position of the first NUL: `bytes.iter().position(|&c| c == 0x00)`.
unfoldable pub nul_position : ℕ → Text → Option ℕ
nul_position position [] = none
nul_position position (b ∷ s) = if b == 0 then some position else nul_position (position + 1) s

-- `Display for NulError`
abbrev pub show_nul_error : ℕ → Text
show_nul_error position = bytes "nul byte found in provided data at position: " ++ decimal position

abbrev checked : Text → Option ℕ → Outcome Text
checked s none = ok s
checked s (some position) = err (show_nul_error position)

-- `CString::new(s)`. The result is held without its final NUL, as `as_bytes` gives it.
unfoldable pub cstring_new : Text → Outcome Text
unfolding nul_position
cstring_new s = checked s (nul_position 0 s)

-- `CStr::from_ptr` on an array: reading past the end of the array is undefined behaviour.
unfoldable pub from_ptr : Text → Outcome Text
from_ptr [] = undefined
from_ptr (b ∷ s) = if b == 0 then ok [] else from_ptr s >>? λ t. ok (b ∷ t)

-- `CStr::from_ptr(..).to_str()`
unfoldable pub read_str : Text → Outcome Text
unfolding from_ptr from_utf8
read_str cells = from_ptr cells >>? λ s. from_utf8 s

-- No byte of a C string is NUL.
abbrev pub NoNul : Text → Type 0
NoNul [] = Unit
NoNul (b ∷ s) = ((b == 0) ≡ false) × NoNul s
