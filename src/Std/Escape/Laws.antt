-- ===== src/Std/Escape/Laws.antt =====
-- Reading a quoted text back.
use ps2hdd_rs.Prelude.{
  ℕ, ◌+◌, ◌-◌, ◌*◌, ◌<◌, ◌≡◌, refl, ◌∙◌, ap, Text, [], ◌∷◌, ◌++◌, append_assoc, ◌==◌, ltb,
  if◌then◌else◌, Option, none, some, All, arith,
}
use ps2hdd_rs.Std.Escape.{escape_default, escape_bytes, debug_cstr}

-- Where a reader of quoted text stands: in the text, behind a backslash, or in a number.
data Place : Type 0 where
  plain escaped high : Place
  low : ℕ → Place

-- What one character does: it ends the text, or it is bad, or it gives bytes and moves on.
data Move : Type 0 where
  stop bad : Move
  go : Text → Place → Move

digit_of : ℕ → ℕ
digit_of c = if ltb c b'a' then c - b'0' else c - b'a' + 10

letter : ℕ → Move
letter c =
    if c == b't'
    then go (0x09 ∷ []) plain
    else if c == b'r'
    then go (0x0d ∷ []) plain
    else if c == b'n'
    then go (0x0a ∷ []) plain
    else if c == b'x'
    then go [] high
    else go (c ∷ []) plain

move : Place → ℕ → Move
unfolding letter digit_of
move plain c = if c == 0x22 then stop else if c == b'\\' then go [] escaped else go (c ∷ []) plain
move escaped c = letter c
move high c = go [] (low (digit_of c))
move (low n) c = go ((n * 16 + digit_of c) ∷ []) plain

prepend : Text → Option (Text × Text) → Option (Text × Text)
prepend [] r = r
prepend (c ∷ out) none = none
prepend (c ∷ out) (some (s, rest)) = some (c ∷ out ++ s, rest)

read_from : Place → Text → Option (Text × Text)
unfolding move prepend
read_from place [] = none
read_from place (c ∷ s) = elim (move place c) [
  | stop ↦ some ([], s)
  | bad ↦ none
  | go out place' ↦ prepend out (read_from place' s)
]

-- The text of a quoted text, and what follows it.
pub read_quoted : Text → Option (Text × Text)
unfolding read_from
read_quoted [] = none
read_quoted (q ∷ s) = if q == 0x22 then read_from plain s else none

read_from-escape_default :
    (c : ℕ) (s : Text)
    → c < 256
    → read_from plain (escape_default c ++ s) ≡ prepend (c ∷ []) (read_from plain s)
unfolding read_from escape_default
read_from-escape_default c s h = ground arith

read_from-escape_bytes :
    (s rest : Text)
    → All (λ c. c < 256) s
    → read_from plain (escape_bytes s ++ 0x22 ∷ rest) ≡ some (s, rest)
unfolding escape_bytes
read_from-escape_bytes [] rest h = unfold read_from in refl
read_from-escape_bytes (c ∷ s) rest h =
    ap (read_from plain) (append_assoc (escape_default c) (escape_bytes s) (0x22 ∷ rest))
    ∙ read_from-escape_default c (escape_bytes s ++ 0x22 ∷ rest) h.0
    ∙ ap (prepend (c ∷ [])) (read_from-escape_bytes s rest h.1)
    ∙ (unfold prepend in refl)

-- What `{:?}` of a C string writes is read back, whatever follows it.
pub read_quoted-debug_cstr :
    (s rest : Text) → All (λ c. c < 256) s → read_quoted (debug_cstr s ++ rest) ≡ some (s, rest)
unfolding read_quoted debug_cstr
read_quoted-debug_cstr s rest h =
    ap (read_from plain) (append_assoc (escape_bytes s) (0x22 ∷ []) rest)
    ∙ read_from-escape_bytes s rest h
