-- ===== src/Hdd/Partitions/Sizes.antt =====
-- Powers of two, and the size that a request names.
use native.Mathlib.Nat.{pow-suc}
use ps2hdd_rs.Prelude.{
  ℕ, zero, suc, ◌*◌, ◌/◌, ◌%◌, ◌^◌, ◌<◌, ◌≡◌, ◌↔◌, refl, true, ◌==◌, Text, [], ◌∷◌, arith,
  Bool-cases, ==_iff, inl, inr, if◌then◌else◌,
}
use ps2hdd_rs.Hdd.Partitions.{count_ones, is_power_of_two}
use ps2hdd_rs.Std.Format.{read_digits}

count_ones-zero : (bits : ℕ) → count_ones bits 0 ≡ 0
unfolding count_ones
count_ones-zero zero = refl
count_ones-zero (suc bits) = omega (arith, count_ones-zero bits)

-- No bit is set only in zero.
zero_of_count : (bits n : ℕ) → n < 2 ^ bits → count_ones bits n ≡ 0 → n ≡ 0
unfolding count_ones
zero_of_count zero n h e = omega arith
zero_of_count (suc bits) n h e =
    let half : n / 2 ≡ 0 =
      zero_of_count bits (n / 2) (omega (arith, pow-suc 2 bits)) (omega arith) in
    omega arith

power_of_count :
    (bits n : ℕ) → n < 2 ^ bits → count_ones bits n ≡ 1 → (k : ℕ) × (k < bits) × (n ≡ 2 ^ k)
unfolding count_ones
power_of_count zero n h e = absurd (omega arith)
power_of_count (suc bits) n h e = elim (Bool-cases (n % 2 == 0)) [
  | inl even ↦
      let (k, h', e') =
        power_of_count bits (n / 2) (omega (arith, pow-suc 2 bits)) (ground arith) in
      (suc k, omega arith, ground (arith, pow-suc 2 k))
  | inr odd ↦
      let half : n / 2 ≡ 0 =
        zero_of_count bits (n / 2) (omega (arith, pow-suc 2 bits)) (ground arith) in
      (0, omega arith, ground arith)
]

count_of_power : (bits k : ℕ) → k < bits → count_ones bits (2 ^ k) ≡ 1
unfolding count_ones
count_of_power zero k h = absurd (omega arith)
count_of_power (suc bits) zero h = omega (arith, count_ones-zero bits)
count_of_power (suc bits) (suc k) h =
    let rest : 2 ^ suc k % 2 ≡ 0 = omega (arith, pow-suc 2 k) in
    let half : 2 ^ suc k / 2 ≡ 2 ^ k = omega (arith, pow-suc 2 k) in
    rw (rest, half) (omega (arith, count_of_power bits k (omega arith)))

-- On a `u64` the test on the bits holds for the powers of two and for no other number.
pub is_power_of_two_iff :
    (n : ℕ) → n < 2 ^ 64 → (is_power_of_two n ≡ true) ↔ ((k : ℕ) × (k < 64) × (n ≡ 2 ^ k))
unfolding is_power_of_two
is_power_of_two_iff n h = (
  λ e. power_of_count 64 n h ((==_iff (count_ones 64 n) 1).0 e),
  λ (k, inside, e). (==_iff (count_ones 64 n) 1).1 (rw e (count_of_power 64 k inside)),
)

-- The mebibytes that a size string stands for.
unit_size : ℕ × Text → ℕ
unit_size (n, []) = 0
unit_size (n, c ∷ s) = if c == b'G' then n * 1024 else n

pub mebibytes : Text → ℕ
mebibytes s = unit_size (read_digits 0 s)
