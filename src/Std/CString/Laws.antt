-- ===== src/Std/CString/Laws.antt =====
-- C strings: which texts become one, and reading back what was written.
use ps2hdd_rs.Prelude.{
  ℕ, ◌+◌, Text, [], ◌∷◌, ◌++◌, ◌≡◌, refl, none, some, arith, Option, ok, err, Bool-cases, ◌⊎◌, inl,
  inr, ◌==◌,
}
use ps2hdd_rs.Std.Utf8.{IsUtf8}
use ps2hdd_rs.Std.Utf8.Laws.{from_utf8-IsUtf8}
use ps2hdd_rs.Std.CString.{nul_position, checked, cstring_new, from_ptr, read_str, NoNul}

nul_position-NoNul : (s : Text) (position : ℕ) → NoNul s → nul_position position s ≡ none
unfolding nul_position
nul_position-NoNul [] position h = refl
nul_position-NoNul (b ∷ s) position h =
    rw (h.0, nul_position) (nul_position-NoNul s (position + 1) h.1)

NoNul-nul_position : (s : Text) (position : ℕ) → nul_position position s ≡ none → NoNul s
unfolding nul_position
NoNul-nul_position [] position h = tt
NoNul-nul_position (b ∷ s) position h = elim (Bool-cases (b == 0)) [
  | inl nul ↦ ground arith
  | inr fine ↦ (fine, NoNul-nul_position s (position + 1) (rw (fine, nul_position) at h))
]

pub cstring_new-NoNul : (s : Text) → NoNul s → cstring_new s ≡ ok s
unfolding cstring_new
cstring_new-NoNul s h = rw (nul_position-NoNul s 0 h)

pub NoNul-append : (s t : Text) → NoNul s → NoNul t → NoNul (s ++ t)
NoNul-append [] t h k = k
NoNul-append (c ∷ s) t h k = (h.0, NoNul-append s t h.1 k)

pub NoNul-front : (s t : Text) → NoNul (s ++ t) → NoNul s
NoNul-front [] t h = tt
NoNul-front (c ∷ s) t h = (h.0, NoNul-front s t h.1)

checked-eq-ok : (s : Text) (p : Option ℕ) {t : Text} → checked s p ≡ ok t → (t ≡ s) × (p ≡ none)
checked-eq-ok s none h = (ground arith, refl)
checked-eq-ok s (some position) h = cc

-- `CString::new` gives the text itself, and only if it holds no NUL.
pub NoNul-cstring_new : (s : Text) {t : Text} → cstring_new s ≡ ok t → (t ≡ s) × NoNul s
unfolding cstring_new
NoNul-cstring_new s h =
    let e = checked-eq-ok s (nul_position 0 s) h in (e.0, NoNul-nul_position s 0 e.1)

checked-cases :
    (s : Text) (r : Option ℕ)
    → ((checked s r ≡ ok s) × (r ≡ none)) ⊎ ((e : Text) × (checked s r ≡ err e))
checked-cases s none = inl (refl, refl)
checked-cases s (some position) = inr (_, refl)

-- The text itself, if it holds no NUL, and an error otherwise.
pub cstring_new-cases :
    (s : Text) → ((cstring_new s ≡ ok s) × NoNul s) ⊎ ((e : Text) × (cstring_new s ≡ err e))
unfolding cstring_new
cstring_new-cases s = elim (checked-cases s (nul_position 0 s)) [
  | inl (e, none_found) ↦ inl (e, NoNul-nul_position s 0 none_found)
  | inr (e, failed) ↦ inr (e, failed)
]

-- What is written up to a NUL is read back, whatever the rest of the array holds.
pub from_ptr-terminated : (s rest : Text) → NoNul s → from_ptr (s ++ 0 ∷ rest) ≡ ok s
unfolding from_ptr
from_ptr-terminated [] rest h = refl
from_ptr-terminated (b ∷ s) rest h = rw (h.0, from_ptr-terminated s rest h.1)

pub read_str-terminated : (s rest : Text) → NoNul s → IsUtf8 s → read_str (s ++ 0 ∷ rest) ≡ ok s
unfolding read_str
read_str-terminated s rest h u = rw (from_ptr-terminated s rest h, from_utf8-IsUtf8 s u)
