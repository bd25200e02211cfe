-- ===== src/Std/Masks.antt =====
-- `&` with a mask, as arithmetic.
use Prim.Native.Nat.{bit_and, bit_and-bitwise, digits, min}
use ps2hdd_rs.Prelude.{ℕ, zero, suc, ◌+◌, ◌*◌, ◌/◌, ◌%◌, ◌≤◌, ◌≡◌, refl, ap, ◌∙◌, arith}

-- The binary digits that two numbers share, as `bit_and` counts them.
abbrev shared : ℕ → ℕ → ℕ → ℕ
shared n a b = digits (λ b. 0) min n a b

abbrev pred : ℕ → ℕ
pred zero = 0
pred (suc n) = n

shared-zero : (n b : ℕ) → shared n 0 b ≡ 0
shared-zero zero b = refl
shared-zero (suc n) b = refl

-- One digit, and the rest.
shared-digit :
    (n a b : ℕ) → a ≤ n → shared n a b ≡ shared (pred n) (a / 2) (b / 2) * 2 + min (a % 2) (b % 2)
shared-digit zero zero b h = omega arith
shared-digit zero (suc a) b h = absurd (omega arith)
shared-digit (suc n) zero b h = omega (arith, shared-zero n (b / 2))
shared-digit (suc n) (suc a) b h = refl

min-zero : (x : ℕ) → min x 0 ≡ 0
min-zero zero = refl
min-zero (suc x) = omega arith

min-one : (x : ℕ) → min (x % 2) 1 ≡ x % 2
min-one x = omega arith

shared-nothing : (n a : ℕ) → a ≤ n → shared n a 0 ≡ 0
shared-nothing zero a h = refl
shared-nothing (suc n) zero h = refl
shared-nothing (suc n) (suc a) h =
    omega (arith, shared-nothing n (suc a / 2) (omega arith), min-zero (suc a % 2))

-- A mask with a last digit 0, and one with a last digit 1.
shared-even : (n a m : ℕ) → a ≤ n → shared n a (m * 2) ≡ shared (pred n) (a / 2) m * 2
shared-even n a m h =
    let whole : m * 2 / 2 ≡ m = omega arith in
    let last : m * 2 % 2 ≡ 0 = omega arith in
    shared-digit n a (m * 2) h ∙ rw (whole, last) (rw (min-zero (a % 2)) (omega arith))

shared-odd : (n a m : ℕ) → a ≤ n → shared n a (m * 2 + 1) ≡ shared (pred n) (a / 2) m * 2 + a % 2
shared-odd n a m h =
    let whole : (m * 2 + 1) / 2 ≡ m = omega arith in
    let last : (m * 2 + 1) % 2 ≡ 1 = omega arith in
    shared-digit n a (m * 2 + 1) h ∙ rw (whole, last) (rw (min-one a) refl)

pred-half : (n a : ℕ) → a ≤ n → a / 2 ≤ pred n
pred-half zero a h = omega arith
pred-half (suc n) a h = omega arith

ones : ℕ → ℕ
ones zero = 0
ones (suc k) = ones k * 2 + 1

-- `k` digits of the number, then the same behind zeros.
lowest : ℕ → ℕ → ℕ
lowest zero a = 0
lowest (suc k) a = lowest k (a / 2) * 2 + a % 2

shared-ones : (k n a : ℕ) → a ≤ n → shared n a (ones k) ≡ lowest k a
unfolding ones lowest
shared-ones zero n a h = shared-nothing n a h
shared-ones (suc k) n a h =
    shared-odd n a (ones k) h
    ∙ ap (λ x. x * 2 + a % 2) (shared-ones k (pred n) (a / 2) (pred-half n a h))

doubled : ℕ → ℕ → ℕ
doubled zero m = m
doubled (suc k) m = doubled k m * 2

halved : ℕ → ℕ → ℕ
halved zero a = a
halved (suc k) a = halved k (a / 2)

shared-doubled :
    (k n a : ℕ) → a ≤ n → shared n a (doubled k (ones 4)) ≡ doubled k (lowest 4 (halved k a))
unfolding doubled halved
shared-doubled zero n a h = shared-ones 4 n a h
shared-doubled (suc k) n a h =
    shared-even n a (doubled k (ones 4)) h
    ∙ ap (λ x. x * 2) (shared-doubled k (pred n) (a / 2) (pred-half n a h))

lowest-four : (a : ℕ) → lowest 4 a ≡ a % 16
unfolding lowest
lowest-four a = omega arith

halved-twelve : (a : ℕ) → halved 12 a ≡ a / 0x1000
unfolding halved
halved-twelve a = omega arith

-- The mask 0xf000 keeps the fourth hexadecimal digit.
pub bit_and-f000 : (a : ℕ) → bit_and a 0xf000 ≡ a / 0x1000 % 16 * 0x1000
unfolding doubled ones
bit_and-f000 a =
    bit_and-bitwise a 0xf000
    ∙ (shared-doubled 12 a a (omega arith)
        ∙ rw (halved-twelve a) (rw (lowest-four (a / 0x1000)) (omega arith)))
