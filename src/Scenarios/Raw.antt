-- ===== src/Scenarios/Raw.antt =====
-- ps2hdd-sys/src/lib.rs: the utilities of the tests, which call the bindings with nothing between.
pub mod Laws
pub mod Writing
use ps2hdd_rs.Prelude.{
  ℕ, zero, suc, ℤ, Text, bytes, ◌++◌, List, [], ◌∷◌, Bool, ltb, length, is_negative, is_positive,
  is_nonzero, not, if◌then◌else◌, text_eq, Outcome, ok, err, panic, undefined, out_of_fuel, ◌>>?◌,
}
use ps2hdd_rs.Ffi.{negated}
use ps2hdd_rs.Hdd.Open.{write_bytes}
use ps2hdd_rs.ReadDir.{zeroed}
use ps2hdd_rs.Scenarios.{assert}
use ps2hdd_rs.Std.CString.{cstring_new, read_str}
use ps2hdd_rs.Std.Format.{decimal, show_int}
use ps2hdd_rs.Std.Utf8.{from_utf8}
use ps2hdd_rs.Sys.Bindings.{Bindings, Dirent}
use ps2hdd_rs.Sys.Platform.{Platform}
use ps2hdd_rs.Sys.World.{
  Io, pure, lift, call, command, exhausted, get_device_path, set_device_path, ◌>>=◌, ◌>>◌,
}

-- `result.expect(message)`
abbrev pub expected {ℓ} : {A : Type ℓ} → Text → Outcome A → Outcome A
expected message (err e) = panic message
expected message r = r

module _ {b : Bindings} (p : Platform b) where
  -- The array is written as `PS2HDD::open` writes it.
  set_cells : Text → Io p (Unit {0})
  set_cells name_slice = do
    cells ← get_device_path
    cells' ← lift (write_bytes (length name_slice) 0 name_slice cells)
    set_device_path cells'

  check_cells : Text → Io p (Unit {0})
  check_cells path = do
    cells ← get_device_path
    after_path ←
        lift (
          expected (bytes "could not convert the updated device path to a String") (read_str cells))
    assert (text_eq after_path path)
        (bytes "util_set_atad_device_path: updating the variable didn't work, weird!")

  unfoldable pub util_set_atad_device_path : Text → Io p (Unit {0})
  unfolding set_cells check_cells
  util_set_atad_device_path path = do
    name_slice ←
        lift (
          expected (bytes "could not convert atad_device_path slice to C String")
            (cstring_new path))
    if ltb 255 (length name_slice)
        then lift (
            panic (
              bytes "util_set_atad_device_path: string length "
              ++ (decimal (length name_slice) ++ bytes " is too long to be null-terminated")))
        else (do set_cells name_slice; check_cells path)

  -- A negative result only prints a line.
  report : ℤ → Dirent b → Io p (Unit {0})
  report result temp_dirent =
      if is_negative result
      then (do
        name ← lift (
            expected
              (bytes "util_iomanx_dopen_dread: could not convert the partition name to a String")
              (read_str temp_dirent.name))
        command (
            p.print_line (
              bytes "util_iomanx_dopen_dread: result: "
              ++ (show_int result ++ (bytes " " ++ name)))))
      else pure tt

  more :
      (List (Dirent b) → Io p (List (Dirent b)))
      → ℤ
      → Dirent b
      → List (Dirent b)
      → Io p (List (Dirent b))
  more again result temp_dirent dirents =
      if is_positive result then again (dirents ++ temp_dirent ∷ []) else pure dirents

  unfoldable pub dread_loop : ℕ → ℤ → Dirent b → List (Dirent b) → Io p (List (Dirent b))
  unfolding report more
  dread_loop zero device_handle temp_dirent dirents = exhausted
  dread_loop (suc fuel) device_handle temp_dirent dirents = do
    (result, temp_dirent) ← call (p.iomanx_dread device_handle temp_dirent)
    report result temp_dirent
    more (dread_loop fuel device_handle temp_dirent) result temp_dirent dirents

  -- `panic!("..: {}, {}", result, strerror(-result))`
  fails : Text → Text → ℤ → Outcome (Unit {0})
  fails message bad_text result = negated p result >>? λ n.
      expected bad_text (from_utf8 (p.strerror n)) >>? λ text.
      panic (message ++ (bytes ": " ++ (show_int result ++ (bytes ", " ++ text))))

  -- `if result < 0 { panic!(..) }`
  unfoldable pub check_result : Text → Text → ℤ → Io p (Unit {0})
  unfolding fails
  check_result message bad_text result =
      if is_negative result then lift (fails message bad_text result) else pure tt

  unfoldable pub util_iomanx_dopen_dread : ℕ → Text → Io p (List (Dirent b))
  util_iomanx_dopen_dread fuel path = do
    device_handle ← call (p.iomanx_dopen path)
    check_result (bytes "util_iomanx_dopen_dread: dopen failed")
        (bytes "util_iomanx_dopen_dread: could not convert error message a String") device_handle
    dirents ← dread_loop fuel device_handle (zeroed b) []
    closed ← call (p.iomanx_close device_handle)
    assert (not (is_nonzero closed)) (bytes "iomanx_close failed")
    pure dirents
