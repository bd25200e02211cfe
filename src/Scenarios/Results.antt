-- ===== src/Scenarios/Results.antt =====
-- ps2hdd/src/ffi_utils.rs: the tests of C results. The numbers of `libc` are those of POSIX systems,
-- as the expected texts have them.
pub mod Laws
use ps2hdd_rs.Prelude.{
  ℤ, pos, negsuc, neg, Text, bytes, Bool, false, ◌==◌, text_eq, if◌then◌else◌, Outcome, ok, err,
  panic, undefined, out_of_fuel, ◌>>?◌,
}
use ps2hdd_rs.Ffi.{ok_on_zero_or_strerror, ok_on_nonnegative_or_strerror}
use ps2hdd_rs.Sys.Bindings.{Bindings}
use ps2hdd_rs.Sys.Platform.{Platform}

abbrev pub eperm : ℤ
eperm = pos 1

abbrev pub eio : ℤ
eio = pos 5

abbrev pub eacces : ℤ
eacces = pos 13

abbrev pub ebusy : ℤ
ebusy = pos 16

pub int_eq : ℤ → ℤ → Bool
int_eq (pos m) (pos n) = m == n
int_eq (negsuc m) (negsuc n) = m == n
int_eq _ _ = false

-- `PartialEq` of a `Result`.
pub result_eq : Outcome ℤ → Outcome ℤ → Bool
unfolding int_eq text_eq
result_eq (ok m) (ok n) = int_eq m n
result_eq (err d) (err e) = text_eq d e
result_eq _ _ = false

-- `assert_eq!`
unfoldable pub assert_eq : Outcome ℤ → Outcome ℤ → Outcome (Unit {0})
unfolding result_eq
assert_eq (panic e) right = panic e
assert_eq undefined right = undefined
assert_eq out_of_fuel right = out_of_fuel
assert_eq left right =
    if result_eq left right then ok tt else panic (bytes "assertion failed: `(left == right)`")

abbrev pub not_returned : Text
not_returned = bytes "This message should not be returned"

abbrev pub returned : Text
returned = bytes "This message should be returned"

module _ {b : Bindings} (p : Platform b) where
  unfoldable pub return_ok_on_zeroes : Outcome (Unit {0})
  return_ok_on_zeroes =
      assert_eq (ok_on_zero_or_strerror p (pos 0) not_returned) (ok (pos 0)) >>? λ _.
      assert_eq (ok_on_nonnegative_or_strerror p (pos 0) not_returned) (ok (pos 0))

  -- The numbers are negative here too.
  unfoldable pub return_err_on_positives : Outcome (Unit {0})
  return_err_on_positives =
      assert_eq (ok_on_zero_or_strerror p (neg eperm) returned)
        (err (bytes "This message should be returned: -1, Operation not permitted"))
      >>? λ _.
          assert_eq (ok_on_zero_or_strerror p (neg eacces) returned)
            (err (bytes "This message should be returned: -13, Permission denied"))

  unfoldable pub return_ok_on_positives : Outcome (Unit {0})
  return_ok_on_positives =
      assert_eq (ok_on_nonnegative_or_strerror p (pos 10) not_returned) (ok (pos 10)) >>? λ _.
      assert_eq (ok_on_nonnegative_or_strerror p (pos 123) not_returned) (ok (pos 123))

  unfoldable pub return_err_on_negatives : Outcome (Unit {0})
  return_err_on_negatives =
      assert_eq (ok_on_zero_or_strerror p (neg eperm) returned)
        (err (bytes "This message should be returned: -1, Operation not permitted"))
      >>? λ _.
          assert_eq (ok_on_zero_or_strerror p (neg eacces) returned)
            (err (bytes "This message should be returned: -13, Permission denied"))
          >>? λ _.
              assert_eq (ok_on_nonnegative_or_strerror p (neg eio) returned)
                (err (bytes "This message should be returned: -5, Input/output error"))
              >>? λ _.
                  assert_eq (ok_on_nonnegative_or_strerror p (neg ebusy) returned)
                    (err (bytes "This message should be returned: -16, Resource busy"))
