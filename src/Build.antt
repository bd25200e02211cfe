-- ===== src/Build.antt =====
-- ps2hdd-sys/build.rs: the build script. `meson`, `bindgen` and cargo are parameters.
mod Laws
use ps2hdd_rs.Prelude.{
  ℕ, Text, bytes, ◌++◌, List, [], ◌∷◌, Bool, true, ◌==◌, if◌then◌else◌, Outcome, ok, err, panic,
  undefined, out_of_fuel,
}
use ps2hdd_rs.Std.Utf8.{from_utf8}

pub record Tools : Type 1 where
  pub State : Type 0
  pub Builder : Type 0
  pub Bindings : Type 0
  -- `env::var`, whose error is told.
  pub var : Text → State → Outcome Text
  pub print_line : Text → State → State
  -- Source and build directory; a failure is a panic.
  pub meson_build : Text → Text → State → Outcome (Unit {0}) × State
  pub default : Builder
  pub header : Text → Builder → Builder
  pub derive_debug : Bool → Builder → Builder
  pub derive_partialeq : Bool → Builder → Builder
  pub derive_eq : Bool → Builder → Builder
  pub whitelist_var : Text → Builder → Builder
  pub whitelist_type : Text → Builder → Builder
  pub whitelist_function : Text → Builder → Builder
  -- `parse_callbacks(Box::new(bindgen::CargoCallbacks))`
  pub cargo_callbacks : Builder → Builder
  pub generate : Builder → State → Outcome Bindings × State
  pub write_to_file : Bindings → Text → State → Outcome (Unit {0}) × State

pub data Item : Type 0 where
  var : Text → Item
  named_type : Text → Item
  function : Text → Item

-- What the bindings are generated for, in the order of the source.
abbrev pub whitelist : List Item
whitelist =
    var (bytes "IOMANX_O_APPEND")
    ∷ var (bytes "IOMANX_O_CREAT")
    ∷ var (bytes "IOMANX_O_DIROPEN")
    ∷ var (bytes "IOMANX_O_EXCL")
    ∷ var (bytes "IOMANX_O_NBLOCK")
    ∷ var (bytes "IOMANX_O_NOWAIT")
    ∷ var (bytes "IOMANX_O_RDONLY")
    ∷ var (bytes "IOMANX_O_RDWR")
    ∷ var (bytes "IOMANX_O_TRUNC")
    ∷ var (bytes "IOMANX_O_WRONLY")
    ∷ var (bytes "IOMANX_SEEK_CUR")
    ∷ var (bytes "IOMANX_SEEK_END")
    ∷ var (bytes "IOMANX_SEEK_SET")
    ∷ var (bytes "FIO_CST_AT")
    ∷ var (bytes "FIO_CST_ATTR")
    ∷ var (bytes "FIO_CST_CT")
    ∷ var (bytes "FIO_CST_MODE")
    ∷ var (bytes "FIO_CST_MT")
    ∷ var (bytes "FIO_CST_PRVT")
    ∷ var (bytes "FIO_CST_SIZE")
    ∷ var (bytes "FIO_MT_RDONLY")
    ∷ var (bytes "FIO_MT_RDWR")
    ∷ var (bytes "FIO_S_IFDIR")
    ∷ var (bytes "FIO_S_IFLNK")
    ∷ var (bytes "FIO_S_IFMT")
    ∷ var (bytes "FIO_S_IFREG")
    ∷ var (bytes "FIO_S_IRGRP")
    ∷ var (bytes "FIO_S_IROTH")
    ∷ var (bytes "FIO_S_IRUSR")
    ∷ var (bytes "FIO_S_IRWXG")
    ∷ var (bytes "FIO_S_IRWXO")
    ∷ var (bytes "FIO_S_IRWXU")
    ∷ var (bytes "FIO_S_ISGID")
    ∷ var (bytes "FIO_S_ISUID")
    ∷ var (bytes "FIO_S_ISVTX")
    ∷ var (bytes "FIO_S_IWGRP")
    ∷ var (bytes "FIO_S_IWOTH")
    ∷ var (bytes "FIO_S_IWUSR")
    ∷ var (bytes "FIO_S_IXGRP")
    ∷ var (bytes "FIO_S_IXOTH")
    ∷ var (bytes "FIO_S_IXUSR")
    ∷ named_type (bytes "ps2fs_datetime_type")
    ∷ named_type (bytes "iox_stat_t")
    ∷ named_type (bytes "iox_dirent_t")
    ∷ function (bytes "_init_apa")
    ∷ function (bytes "_init_pfs")
    ∷ function (bytes "_init_hdlfs")
    ∷ function (bytes "iomanx_open")
    ∷ function (bytes "iomanx_close")
    ∷ function (bytes "iomanx_read")
    ∷ function (bytes "iomanx_write")
    ∷ function (bytes "iomanx_lseek")
    ∷ function (bytes "iomanx_ioctl")
    ∷ function (bytes "iomanx_remove")
    ∷ function (bytes "iomanx_mkdir")
    ∷ function (bytes "iomanx_rmdir")
    ∷ function (bytes "iomanx_dopen")
    ∷ function (bytes "iomanx_dclose")
    ∷ function (bytes "iomanx_getstat")
    ∷ function (bytes "iomanx_chstat")
    ∷ function (bytes "iomanx_format")
    ∷ function (bytes "iomanx_rename")
    ∷ function (bytes "iomanx_chdir")
    ∷ function (bytes "iomanx_sync")
    ∷ function (bytes "iomanx_mount")
    ∷ function (bytes "iomanx_umount")
    ∷ function (bytes "iomanx_lseek64")
    ∷ function (bytes "iomanx_devctl")
    ∷ function (bytes "iomanx_symlink")
    ∷ function (bytes "iomanx_readlink")
    ∷ function (bytes "iomanx_ioctl2")
    ∷ var (bytes "hdd_length")
    ∷ var (bytes "atad_device_path")
    ∷ function (bytes "atad_close")
    ∷ var (bytes "HDL_FS_MAGIC")
    ∷ var (bytes "APA_FLAG_SUB")
    ∷ var (bytes "HDL_INFO_MAGIC")
    ∷ var (bytes "HDL_GAME_DATA_OFFSET")
    ∷ named_type (bytes "hdl_game_info")
    ∷ named_type (bytes "part_specs_t")
    ∷ []

abbrev ends_in_slash : Text → Bool
ends_in_slash [] = true
ends_in_slash (c ∷ []) = c == b'/'
ends_in_slash (c ∷ d ∷ path) = ends_in_slash (d ∷ path)

-- `PathBuf::join` with a relative path.
unfoldable pub join : Text → Text → Text
join path name = if ends_in_slash path then path ++ name else path ++ (b'/' ∷ name)

-- `result.unwrap()` and `result.expect(message)`; what stands behind the message is left out.
abbrev pub or_panic {ℓ} : {A : Type ℓ} → Text → Outcome A → Outcome A
or_panic message (err e) = panic message
or_panic message r = r

abbrev unwrapped : Text
unwrapped = bytes "called `Result::unwrap()` on an `Err` value"

module _ (t : Tools) where
  abbrev pub Script {ℓ} : Type ℓ → Type ℓ
  Script A = t.State → Outcome A × t.State

  abbrev pub resume {ℓ κ} : {A : Type ℓ} {B : Type κ} → Outcome A → (A → Script B) → Script B
  resume (ok a) f s = f a s
  resume (err e) f s = (err e, s)
  resume (panic e) f s = (panic e, s)
  resume undefined f s = (undefined, s)
  resume out_of_fuel f s = (out_of_fuel, s)

  infixl 5 ◌>>=◌ ◌>>◌
  unfoldable pub ◌>>=◌ {ℓ κ} : {A : Type ℓ} {B : Type κ} → Script A → (A → Script B) → Script B
  ◌>>=◌ m f s = let (r, s') = m s in resume r f s'

  abbrev pub ◌>>◌ {ℓ κ} : {A : Type ℓ} {B : Type κ} → Script A → Script B → Script B
  m >> n = m >>= λ _. n

  abbrev pub println : Text → Script (Unit {0})
  println line s = (ok tt, t.print_line line s)

  abbrev pub just {ℓ} : {A : Type ℓ} → Outcome A → Script A
  just r s = (r, s)

  abbrev pub out_dir : Script Text
  out_dir s = (or_panic unwrapped (t.var (bytes "OUT_DIR") s), s)

  unfoldable pub whitelisted : List Item → t.Builder → t.Builder
  whitelisted [] builder = builder
  whitelisted (var name ∷ items) builder = whitelisted items (t.whitelist_var name builder)
  whitelisted (named_type name ∷ items) builder = whitelisted items (t.whitelist_type name builder)
  whitelisted (function name ∷ items) builder =
      whitelisted items (t.whitelist_function name builder)

  unfoldable pub builder : t.Builder
  unfolding whitelisted
  builder = t.cargo_callbacks (
      whitelisted whitelist (
        t.derive_eq true
          (t.derive_partialeq true (t.derive_debug true (t.header (bytes "wrapper.h") t.default)))))

  unfoldable pub main : Script (Unit {0})
  main = do
    out_path ← out_dir
    build_path ← just (
        or_panic (bytes "called `Option::unwrap()` on a `None` value")
          (from_utf8 (join out_path (bytes "build"))))
    println (bytes "cargo:rustc-link-lib=ps2hdd")
    println (bytes "cargo:rustc-link-search=" ++ build_path)
    t.meson_build (bytes "vendor/pfsshell") build_path
    println (bytes "cargo:rerun-if-changed=wrapper.h")
    bindings ← λ s.
        (let (r, s') = t.generate builder s in
          (or_panic (bytes "Unable to generate bindings") r, s'))
    out_path ← out_dir
    λ s.
        (let (r, s') = t.write_to_file bindings (join out_path (bytes "bindings.rs")) s in
          (or_panic (bytes "Couldn't write bindings!") r, s'))
