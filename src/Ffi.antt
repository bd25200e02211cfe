-- ===== src/Ffi.antt =====
-- ps2hdd/src/ffi_utils.rs: the results of C functions as `Result`s.
pub mod Laws
use ps2hdd_rs.Prelude.{
  ℤ, Bool, Text, bytes, ◌++◌, neg, is_i32_min, is_nonzero, is_negative, if◌then◌else◌, Outcome, ok,
  err, panic, undefined, out_of_fuel, ◌>>?◌,
}
use ps2hdd_rs.Std.Format.{show_int}
use ps2hdd_rs.Std.Utf8.{from_utf8}
use ps2hdd_rs.Sys.Bindings.{Bindings}
use ps2hdd_rs.Sys.Platform.{Platform}

-- The two branches on the text of the error number.
abbrev pub describe : Text → ℤ → Outcome Text → Outcome ℤ
describe err_message result (ok text) =
    err (err_message ++ (bytes ": " ++ (show_int result ++ (bytes ", " ++ text))))
describe err_message result (err e) =
    err (bytes "could not convert strerror message a String: " ++ e)
describe err_message result (panic e) = panic e
describe err_message result undefined = undefined
describe err_message result out_of_fuel = out_of_fuel

module _ {b : Bindings} (p : Platform b) where
  -- `-result`, which overflows at `c_int::MIN`: a panic in a debug build, and itself otherwise.
  unfoldable pub negated : ℤ → Outcome ℤ
  negated result =
      if is_i32_min result
      then (if p.overflow_checks
          then panic (bytes "attempt to negate with overflow")
          else ok result)
      else ok (neg result)

  unfoldable pub ok_on_pred_or_strerror : ℤ → Text → (ℤ → Bool) → Outcome ℤ
  unfolding negated
  ok_on_pred_or_strerror result err_message f =
      if f result
      then (negated result >>? λ code. describe err_message result (from_utf8 (p.strerror code)))
      else ok result

  unfoldable pub ok_on_zero_or_strerror : ℤ → Text → Outcome ℤ
  unfolding ok_on_pred_or_strerror
  ok_on_zero_or_strerror result err_message =
      ok_on_pred_or_strerror result err_message (λ ret. is_nonzero ret)

  unfoldable pub ok_on_nonnegative_or_strerror : ℤ → Text → Outcome ℤ
  unfolding ok_on_pred_or_strerror
  ok_on_nonnegative_or_strerror result err_message =
      ok_on_pred_or_strerror result err_message (λ ret. is_negative ret)
