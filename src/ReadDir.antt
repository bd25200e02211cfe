-- ===== src/ReadDir.antt =====
-- The calls, from `iomanx_dopen` to `iomanx_close`, that `list_partitions` (ps2hdd/src/lib.rs) and
-- `list_dir` (ps2hdd/src/driver.rs) share but for their messages and for what they push.
pub mod Laws
use ps2hdd_rs.Prelude.{
  ℕ, zero, suc, ℤ, Text, bytes, ◌++◌, List, replicate, [], is_negative, is_positive, if◌then◌else◌,
  true, false, Outcome, ok, err, panic, undefined, out_of_fuel,
}
use ps2hdd_rs.Ffi.{ok_on_zero_or_strerror, ok_on_nonnegative_or_strerror}
use ps2hdd_rs.Std.Format.{show_int}
use ps2hdd_rs.Std.CString.{read_str}
use ps2hdd_rs.Sys.Bindings.{Bindings, Dirent}
use ps2hdd_rs.Sys.Platform.{Platform}
use ps2hdd_rs.Sys.World.{Io, pure, lift, call, exhausted, ◌>>=◌, ◌>>◌}

-- `let mut temp_dirent: iox_dirent_t = unsafe { std::mem::zeroed() }`. The array of the name has
-- 256 elements.
abbrev pub zeroed : (b : Bindings) → Dirent b
zeroed b = record { stat = b.zero_stat; name = replicate 256 0; unknown = b.zero_unknown }

-- What the two callers say of errors: of opening and closing the directory, of a negative result
-- (before the number), and of a name that is no text.
pub record Messages : Type 0 where
  pub opening : Text
  pub closing : Text
  pub failed : Text
  pub bad_name : Text

-- The error of a negative result, with the name that the entry holds.
abbrev pub read_error {ℓ} : {A : Type ℓ} → Messages → ℤ → Outcome Text → Outcome A
read_error says result (ok name) = err (says.failed ++ (show_int result ++ (bytes " " ++ name)))
read_error says result (err e) = err (says.bad_name ++ e)
read_error says result (panic e) = panic e
read_error says result undefined = undefined
read_error says result out_of_fuel = out_of_fuel

module _ {b : Bindings} (p : Platform b) {A : Type 0} (says : Messages) where
  -- What a round does with the result of the read and the entry that it left: an error, the end, or
  -- the body of the loop and what follows, `again`.
  after_read :
      (Dirent b → List A → Outcome (List A))
      → (List A → Io p (List A))
      → ℤ
      → Dirent b
      → List A
      → Io p (List A)
  after_read accept again result temp_dirent dirents =
      if is_negative result
      then lift (read_error says result (read_str temp_dirent.name))
      else if is_positive result
      then (lift (accept temp_dirent dirents) >>= again)
      else pure dirents

  -- `accept` is the body of the loop: the list with what the entry adds to it.
  unfoldable pub read_loop :
      ℕ → ℤ → (Dirent b → List A → Outcome (List A)) → Dirent b → List A → Io p (List A)
  unfolding after_read
  read_loop zero handle accept temp_dirent dirents = exhausted
  read_loop (suc fuel) handle accept temp_dirent dirents = do
    (result, temp_dirent) ← call (p.iomanx_dread handle temp_dirent)
    after_read accept (λ dirents'. read_loop fuel handle accept temp_dirent dirents') result
        temp_dirent dirents

  -- The directory is opened, read to its end, and closed; on an error of the loop it stays open.
  unfoldable pub read_directory : ℕ → (Dirent b → List A → Outcome (List A)) → Text → Io p (List A)
  read_directory fuel accept path = do
    result ← call (p.iomanx_dopen path)
    handle ← lift (ok_on_nonnegative_or_strerror p result says.opening)
    dirents ← read_loop fuel handle accept (zeroed b) []
    closed ← call (p.iomanx_close handle)
    lift (ok_on_zero_or_strerror p closed says.closing)
    pure dirents
