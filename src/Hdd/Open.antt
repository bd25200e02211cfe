-- ===== src/Hdd/Open.antt =====
-- `PS2HDD::open`, `PS2HDD::create` and `Drop for PS2HDD`: the life of the one open disk.
pub mod Buffer
pub mod Creation
pub mod Guard
pub mod Drivers
pub mod Refines
use ps2hdd_rs.Prelude.{
  ℕ, zero, suc, ◌+◌, ℤ, Text, bytes, ◌++◌, [], ◌∷◌, Bool, true, false, not, ltb, ◌==◌, text_eq, set,
  length, Option, none, some, if◌then◌else◌, Outcome, ok, err, panic, undefined, out_of_fuel, ◌>>?◌,
}
use ps2hdd_rs.Ffi.{ok_on_zero_or_strerror}
use ps2hdd_rs.Hdd.Types.{Ps2hdd}
use ps2hdd_rs.Std.Format.{decimal}
use ps2hdd_rs.Std.CString.{cstring_new, read_str}
use ps2hdd_rs.Std.Utf8.{from_utf8, from_utf8_lossy}
use ps2hdd_rs.Sys.Bindings.{Bindings}
use ps2hdd_rs.Sys.Platform.{Platform}
use ps2hdd_rs.Sys.World.{
  Io, pure, fail, lift, call, command, query, swap_active, get_device_path, set_device_path, on_err,
  ◌>>=◌, ◌>>◌,
}

-- `array[index] = value`, which panics out of bounds.
unfoldable pub write_at : ℕ → ℕ → Text → Outcome Text
write_at index value cells =
    if ltb index (length cells)
    then ok (set cells index value)
    else panic (bytes "index out of bounds")

-- One round of the loop that fills `atad_device_path`: a byte, and a NUL after the last one.
-- `index == length - 1` is written `index + 1 == length`, and no round has a `length` of 0.
unfoldable pub write_byte : ℕ → ℕ → ℕ → Text → Outcome Text
unfolding write_at
write_byte length index byte cells = write_at index byte cells >>? λ cells.
    if index + 1 == length then write_at (index + 1) 0x00 cells else ok cells

unfoldable pub write_bytes : ℕ → ℕ → Text → Text → Outcome Text
unfolding write_byte
write_bytes length index [] cells = ok cells
write_bytes length index (byte ∷ name) cells =
    write_byte length index byte cells >>? λ cells. write_bytes length (index + 1) name cells

module _ {b : Bindings} (p : Platform b) where
  -- `IS_DEVICE_ACTIVE.swap(false, ..); return Err(message)`
  unfoldable pub release {ℓ} : {A : Type ℓ} → Text → Io p A
  release message = do swap_active false; fail message

  -- The same after `atad_close()`, where a driver could not be initialised.
  unfoldable pub close_and_release {ℓ} : {A : Type ℓ} → Text → Io p A
  unfolding release
  close_and_release message = do command p.atad_close; release message

  -- The loop writes the array in place; a panic in it leaves what was written before, which is of
  -- no use to anybody, so the whole array is written at the end.
  unfoldable pub write_device_path : Text → Io p (Unit {0})
  write_device_path name_slice = do
    cells ← get_device_path
    cells' ← lift (write_bytes (length name_slice) 0 name_slice cells)
    set_device_path cells'

  -- The array is read back and compared.
  unfoldable pub check_device_path : Text → Io p (Unit {0})
  check_device_path path_str = do
    cells ← get_device_path
    after_path ← on_err (read_str cells) (λ error.
        release (bytes "could not convert the updated device path to a String: " ++ error))
    if text_eq path_str after_path
        then pure tt
        else release (bytes "updating the device path variable didn't work, weird!")

  -- `_init_apa` and `_init_pfs`
  unfoldable pub init_drivers : Io p (Unit {0})
  init_drivers = do
    cells ← get_device_path
    apa ← call (p.init_apa cells)
    on_err (ok_on_zero_or_strerror p apa (bytes "Unable to initialize APA partition driver"))
        close_and_release
    pfs ← call p.init_pfs
    on_err (ok_on_zero_or_strerror p pfs (bytes "Unable to initialize PFS filesystem driver"))
        close_and_release
    pure tt

  -- `open` behind the first check, with the device marked as active.
  unfoldable pub open_marked : Text → Io p Ps2hdd
  open_marked path = do
    is_file ← query (p.is_file path)
    if is_file
        then (do
          path_str ←
              on_err (from_utf8 path) (λ _. release (bytes "could not convert path to slice"))
          name_slice ←
              on_err (cstring_new path_str)
                (λ error. release (bytes "could not convert path slice to C String: " ++ error))
          if ltb 255 (length name_slice)
              then release (
                  bytes "Path of length "
                  ++ (decimal (length name_slice) ++ bytes " is too long to be null-terminated"))
              else (do
                write_device_path name_slice
                check_device_path path_str
                init_drivers
                pure (record { path = path; pfs = none; hdlfs = none })))
        else release (from_utf8_lossy path ++ bytes ": No such file")

  -- `PS2HDD::open`
  unfoldable pub open_device : Text → Io p Ps2hdd
  open_device path = do
    was_active ← swap_active true
    if was_active
        then fail (bytes "Only one PS2HDD instance may be mounted at a time")
        else open_marked path

  abbrev pub error_or {ℓ} : {A : Type ℓ} → Option Text → Io p A → Io p A
  error_or (some error) rest = fail error
  error_or none rest = rest

  -- `PS2HDD::create`
  unfoldable pub create : Text → ℕ → Io p Ps2hdd
  create path size = do
    created ← call (p.file_create path)
    error_or created
        (do extended ← call (p.set_len path size); error_or extended (open_device path))

  -- `drop`
  unfoldable pub drop : Io p (Unit {0})
  drop = do
    was_active ← swap_active false
    if was_active
        then command p.atad_close
        else lift (panic (bytes "PS2HDD dropped while not active"))
