-- ===== src/Std/Format/Laws.antt =====
-- Reading printed integers back.
use ps2hdd_rs.Prelude.{
  ℕ, zero, suc, ◌+◌, ◌-◌, ◌*◌, ◌/◌, ◌%◌, ◌<◌, ℤ, pos, negsuc, Text, [], ◌∷◌, ◌++◌, ◌≡◌, refl, ◌∙◌,
  ap, false, true, arith, ltb, ◌==◌, Bool-cases, inl, inr, append_assoc,
}
use ps2hdd_rs.Std.Format.{digits, decimal, show_int, is_digit, read_digits, read_int}

read_digits-digit :
    (acc d : ℕ) (rest : Text)
    → d < 10
    → read_digits acc ((b'0' + d) ∷ rest) ≡ read_digits (acc * 10 + d) rest
unfolding read_digits
read_digits-digit acc d rest h =
    let e : is_digit (b'0' + d) ≡ true = ground arith in
    let v : acc * 10 + (b'0' + d - b'0') ≡ acc * 10 + d = omega arith in rw (e, v)

read_digits-digits :
    (fuel n : ℕ) (rest : Text)
    → n < fuel
    → read_digits 0 (digits fuel n ++ rest) ≡ read_digits n rest
unfolding digits
read_digits-digits zero n rest h = elim h [ ]
read_digits-digits (suc fuel) n rest h = elim (Bool-cases (ltb n 10)) [
  | inl small ↦
      let v : 0 * 10 + n % 10 ≡ n = ground arith in
      rw small (read_digits-digit 0 (n % 10) rest (omega arith) ∙ ap (λ k. read_digits k rest) v)
  | inr large ↦
      let v : n / 10 * 10 + n % 10 ≡ n = omega arith in
      rw (large, append_assoc)
        (read_digits-digits fuel (n / 10) ((b'0' + n % 10) ∷ rest) (ground arith)
          ∙ read_digits-digit (n / 10) (n % 10) rest (omega arith)
          ∙ ap (λ k. read_digits k rest) v)
]

-- What follows a number begins with no digit.
abbrev pub NoDigit : Text → Type 0
NoDigit [] = Unit
NoDigit (c ∷ s) = is_digit c ≡ false

read_digits-stop : (n : ℕ) (rest : Text) → NoDigit rest → read_digits n rest ≡ (n, rest)
unfolding read_digits
read_digits-stop n [] h = refl
read_digits-stop n (c ∷ s) h = rw h

pub read_digits-decimal :
    (n : ℕ) (rest : Text) → NoDigit rest → read_digits 0 (decimal n ++ rest) ≡ (n, rest)
unfolding decimal
read_digits-decimal n rest h =
    read_digits-digits (suc n) n rest (omega arith) ∙ read_digits-stop n rest h

-- A printed number begins with a digit.
abbrev FirstDigit : Text → Type 0
FirstDigit [] = ⊥
FirstDigit (c ∷ s) = is_digit c ≡ true

FirstDigit-append : (s t : Text) → FirstDigit s → FirstDigit (s ++ t)
FirstDigit-append [] t h = absurd h
FirstDigit-append (c ∷ s) t h = h

digits-FirstDigit : (fuel n : ℕ) → n < fuel → FirstDigit (digits fuel n)
unfolding digits
digits-FirstDigit zero n h = elim h [ ]
digits-FirstDigit (suc fuel) n h = elim (Bool-cases (ltb n 10)) [
  | inl small ↦ rw small (ground arith)
  | inr large ↦ rw large (
      FirstDigit-append (digits fuel (n / 10)) ((b'0' + n % 10) ∷ [])
        (digits-FirstDigit fuel (n / 10) (ground arith)))
]

read_int-digits :
    (s : Text) → FirstDigit s → read_int s ≡ (pos (read_digits 0 s).0, (read_digits 0 s).1)
unfolding read_int
read_int-digits [] h = absurd h
read_int-digits (c ∷ s) h = let e : (c == b'-') ≡ false = ground arith in rw e

-- A printed integer is read back, with what follows it.
pub read_int-show_int :
    (x : ℤ) (rest : Text) → NoDigit rest → read_int (show_int x ++ rest) ≡ (x, rest)
unfolding show_int
read_int-show_int (pos n) rest h =
    read_int-digits (decimal n ++ rest)
      (FirstDigit-append (decimal n) rest (digits-FirstDigit (suc n) n (omega arith)))
    ∙ ap (λ (r : ℕ × Text). (pos r.0, r.1)) (read_digits-decimal n rest h)
read_int-show_int (negsuc n) rest h =
    unfold read_int in
    rw (read_digits-decimal (suc n) rest h) (let e : suc n - 1 ≡ n = omega arith in rw e)
