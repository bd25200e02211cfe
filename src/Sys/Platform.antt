-- ===== src/Sys/Platform.antt =====
-- The functions that the source calls: those of `libps2hdd`, `strerror`, and those of the host's
-- file system. Each reads and changes one state, which the program never sees.
use ps2hdd_rs.Prelude.{ℕ, ℤ, Bool, Text, List, Option}
use ps2hdd_rs.Sys.Bindings.{Bindings, Dirent}

pub record Platform (b : Bindings) : Type 1 where
  pub State : Type 0
  -- `_init_apa` reads the array `atad_device_path`, which it is given here.
  pub init_apa : Text → State → ℤ × State
  pub init_pfs : State → ℤ × State
  pub atad_close : State → State
  -- Device, partition or null, arguments or null, and their size in bytes.
  pub iomanx_format : Text → Option Text → Option (List ℤ) → ℕ → State → ℤ × State
  pub iomanx_open : Text → ℤ → State → ℤ × State
  pub iomanx_close : ℤ → State → ℤ × State
  pub iomanx_dopen : Text → State → ℤ × State
  -- The entry that the call is given, and the one that it leaves there.
  pub iomanx_dread : ℤ → Dirent b → State → (ℤ × Dirent b) × State
  pub iomanx_mkdir : Text → ℕ → State → ℤ × State
  pub iomanx_rmdir : Text → State → ℤ × State
  -- Mount point, device and flags; the argument is always null.
  pub iomanx_mount : Text → Text → ℤ → State → ℤ × State
  pub iomanx_umount : Text → State → ℤ × State
  -- The C string of an error number, without its final NUL.
  pub strerror : ℤ → Text
  -- `Path::is_file` and `Path::is_dir`.
  pub is_file : Text → State → Bool
  pub is_dir : Text → State → Bool
  -- `File::create` and `File::set_len`: `none` is success, otherwise the error's message.
  pub file_create : Text → State → Option Text × State
  pub set_len : Text → ℕ → State → Option Text × State
  pub remove_file : Text → State → Option Text × State
  -- `println!`, with the text of the line.
  pub print_line : Text → State → State
  -- Whether the build checks arithmetic for overflow, as debug builds do.
  pub overflow_checks : Bool
