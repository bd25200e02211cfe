-- ===== src/PartitionKind/Laws.antt =====
-- The conversions between numbers, kinds and formattable kinds.
use ps2hdd_rs.Prelude.{ℕ, ◌≡◌, refl, ◌↔◌, ok, arith}
use ps2hdd_rs.PartitionKind.{
  PartitionKind, FormattablePartitionKind, discriminant, formattable_discriminant, kind_of_number,
  to_formattable, from_formattable,
}

kind_of_number-discriminant : (k : PartitionKind) → kind_of_number (discriminant k) ≡ ok k
unfolding kind_of_number
kind_of_number-discriminant PartitionKind.mbr = refl
kind_of_number-discriminant _ = refl

discriminant-kind_of_number :
    (n : ℕ) (k : PartitionKind) → kind_of_number n ≡ ok k → discriminant k ≡ n
unfolding kind_of_number
discriminant-kind_of_number n k h = ground arith

-- `try_from` finds a kind exactly where the number is that kind's discriminant: it inverts `as u32`
-- and refuses every other number.
pub kind_of_number_iff :
    (n : ℕ) (k : PartitionKind) → (kind_of_number n ≡ ok k) ↔ (discriminant k ≡ n)
kind_of_number_iff n k =
    (discriminant-kind_of_number n k, λ e. rw (← e) (kind_of_number-discriminant k))

from-to_formattable :
    (k : PartitionKind) (f : FormattablePartitionKind)
    → to_formattable k ≡ ok f
    → from_formattable f ≡ k
unfolding to_formattable from_formattable
from-to_formattable k f h = ground arith

to-from_formattable : (f : FormattablePartitionKind) → to_formattable (from_formattable f) ≡ ok f
unfolding to_formattable from_formattable
to-from_formattable FormattablePartitionKind.mbr = refl
to-from_formattable _ = refl

same_number :
    (f : FormattablePartitionKind) → formattable_discriminant f ≡ discriminant (from_formattable f)
unfolding formattable_discriminant from_formattable
same_number FormattablePartitionKind.mbr = refl
same_number _ = refl

-- A kind can be formatted exactly if it is that of a formattable kind, which the conversion finds;
-- the two types number it alike.
pub to_formattable_iff :
    (k : PartitionKind) (f : FormattablePartitionKind)
    → ((to_formattable k ≡ ok f) ↔ (from_formattable f ≡ k))
      × (formattable_discriminant f ≡ discriminant (from_formattable f))
to_formattable_iff k f =
    ((from-to_formattable k f, λ e. rw (← e) (to-from_formattable f)), same_number f)
