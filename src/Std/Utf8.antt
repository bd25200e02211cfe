-- ===== src/Std/Utf8.antt =====
-- `str::from_utf8` and `String::from_utf8_lossy`: validation byte by byte, with the position and
-- the length that the error reports.
pub mod Laws
use ps2hdd_rs.Prelude.{
  ℕ, zero, suc, ◌+◌, String, Text, bytes, List, [], ◌∷◌, ◌++◌, Bool, true, false, ◌&&◌, leb, ltb,
  if◌then◌else◌, ◌≡◌, Option, none, some, Outcome, ok, err,
}
use ps2hdd_rs.Std.Format.{decimal}

-- Where a validation stands: between two characters, or within one that wants `more + 1` bytes, the
-- next of them from `low` to `high`, after `seen` bytes.
pub data Utf8State : Type 0 where
  boundary : Utf8State
  within : (more low high seen : ℕ) → Utf8State

-- `error_len`, or the next state.
pub data Utf8Step : Type 0 where
  next : Utf8State → Utf8Step
  invalid : ℕ → Utf8Step

abbrev between : ℕ → ℕ → ℕ → Bool
between low high b = leb low b && leb b high

-- The first byte of a character.
unfoldable pub lead : ℕ → Utf8Step
lead b =
    if ltb b 0x80
    then next boundary
    else if between 0xc2 0xdf b
    then next (within 0 0x80 0xbf 1)
    else if between 0xe0 0xe0 b
    then next (within 1 0xa0 0xbf 1)
    else if between 0xed 0xed b
    then next (within 1 0x80 0x9f 1)
    else if between 0xe1 0xef b
    then next (within 1 0x80 0xbf 1)
    else if between 0xf0 0xf0 b
    then next (within 2 0x90 0xbf 1)
    else if between 0xf1 0xf3 b
    then next (within 2 0x80 0xbf 1)
    else if between 0xf4 0xf4 b
    then next (within 2 0x80 0x8f 1)
    else invalid 1

after_byte : ℕ → ℕ → Utf8State
after_byte zero seen = boundary
after_byte (suc more) seen = within more 0x80 0xbf (seen + 1)

unfoldable pub advance : Utf8State → ℕ → Utf8Step
unfolding lead after_byte
advance boundary b = lead b
advance (within more low high seen) b =
    if between low high b then next (after_byte more seen) else invalid seen

-- `Utf8Error`: the bytes that are valid, and the length of the bad sequence if it is complete.
pub record Utf8Error : Type 0 where
  pub valid_up_to : ℕ
  pub error_len : Option ℕ

-- At a boundary `position` is the start of the next character; within a character, of that one.
abbrev step_position : Utf8State → Utf8State → ℕ → ℕ
step_position boundary boundary position = position + 1
step_position boundary (within more low high seen) position = position
step_position (within more low high seen) boundary position = position + seen + 1
step_position (within _ _ _ _) (within _ _ _ _) position = position

unfoldable pub validate : Utf8State → ℕ → Text → Option Utf8Error
validate boundary position [] = none
validate (within more low high seen) position [] =
    some (record { valid_up_to = position; error_len = none })
validate state position (b ∷ s) = elim (advance state b) [
  | next state' ↦ validate state' (step_position state state' position) s
  | invalid length ↦ some (record { valid_up_to = position; error_len = some length })
]

-- `Display for Utf8Error`
unfoldable pub show_utf8_error : Utf8Error → Text
unfolding decimal bytes
show_utf8_error e = elim e.error_len [
  | some length ↦
      bytes "invalid utf-8 sequence of "
      ++ (decimal length ++ (bytes " bytes from index " ++ decimal e.valid_up_to))
  | none ↦ bytes "incomplete utf-8 byte sequence from index " ++ decimal e.valid_up_to
]

abbrev report : Text → Option Utf8Error → Outcome Text
report s none = ok s
report s (some e) = err (show_utf8_error e)

-- `str::from_utf8(bytes)`, with the error as its message.
unfoldable pub from_utf8 : Text → Outcome Text
unfolding validate advance show_utf8_error
from_utf8 s = report s (validate boundary 0 s)

-- The bytes of a `str`.
abbrev pub IsUtf8 : Text → Type 0
IsUtf8 s = validate boundary 0 s ≡ none

-- U+FFFD
abbrev replacement : Text
replacement = 0xef ∷ 0xbf ∷ 0xbd ∷ []

-- A character that has begun is held in `pending` until it is complete or turns out to be bad.
-- After a bad sequence the byte that broke it is read anew.
abbrev restart : ℕ → Utf8Step → Text × Utf8State × Text
restart b (next boundary) = (b ∷ [], boundary, [])
restart b (next (within more low high seen)) = ([], within more low high seen, b ∷ [])
restart b (invalid length) = (replacement, boundary, [])

-- What one byte adds to the output, the next state, and what is pending.
lossy_step : Utf8State → Text → ℕ → Utf8Step → Text × Utf8State × Text
lossy_step state pending b (next boundary) = (pending ++ b ∷ [], boundary, [])
lossy_step state pending b (next (within more low high seen)) =
    ([], within more low high seen, pending ++ b ∷ [])
lossy_step boundary pending b (invalid length) = (replacement, boundary, [])
lossy_step (within _ _ _ _) pending b (invalid length) =
    let (out, state, held) = restart b (lead b) in (replacement ++ out, state, held)

unfoldable pub lossy : Utf8State → Text → Text → Text
unfolding lossy_step
lossy boundary pending [] = []
lossy (within _ _ _ _) pending [] = replacement
lossy state pending (b ∷ s) =
    let (out, state', held) = lossy_step state pending b (advance state b) in
    out ++ lossy state' held s

-- `path.display()`, `String::from_utf8_lossy(bytes)`
unfoldable pub from_utf8_lossy : Text → Text
unfolding lossy advance
from_utf8_lossy s = lossy boundary [] s
