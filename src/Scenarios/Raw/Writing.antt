-- ===== src/Scenarios/Raw/Writing.antt =====
-- ps2hdd-sys/src/lib.rs: the test `format_list_partitions_and_write`, in the order of its comments.
pub mod Bench
pub mod Disk
pub mod Directory
pub mod Laws
use Prim.Native.Nat.{bit_and}
use ps2hdd_rs.Prelude.{
  ℕ, ℤ, pos, Text, bytes, List, [], ◌∷◌, ◌++◌, Bool, true, false, ◌&&◌, ◌==◌, text_eq, not,
  is_nonzero, none, some, Outcome, ok, panic, ◌>>?◌,
}
use ps2hdd_rs.Hdd.Partitions.{open_flags}
use ps2hdd_rs.Scenarios.{assert, expect, demo_file_size}
use ps2hdd_rs.Scenarios.Raw.{
  expected, check_result, util_set_atad_device_path, util_iomanx_dopen_dread,
}
use ps2hdd_rs.Std.CString.{cstring_new, read_str}
use ps2hdd_rs.Sys.Bindings.{Bindings, Dirent}
use ps2hdd_rs.Sys.Platform.{Platform}
use ps2hdd_rs.Sys.World.{Io, pure, lift, call, command, get_device_path, ◌>>=◌, ◌>>◌}

unfoldable pub texts_eq : List Text → List Text → Bool
unfolding text_eq
texts_eq [] [] = true
texts_eq (s ∷ ss) (t ∷ ts) = text_eq s t && texts_eq ss ts
texts_eq _ _ = false

-- The names of the entries, the first one that is not text with a panic.
unfoldable pub entry_names : {b : Bindings} → Text → List (Dirent b) → Outcome (List Text)
unfolding read_str
entry_names message [] = ok []
entry_names message (d ∷ ds) = expected message (read_str d.name) >>? λ name.
    entry_names message ds >>? λ names. ok (name ∷ names)

abbrev pub default_file_path : Text
default_file_path = bytes "hdd.img"

abbrev pub demo_1_path : Text
demo_1_path = bytes "hdd1.img"

abbrev pub default_names : List Text
default_names =
    bytes "__mbr" ∷ bytes "__net" ∷ bytes "__system" ∷ bytes "__sysconf" ∷ bytes "__common" ∷ []

module _ {b : Bindings} (p : Platform b) where
  -- `assert_eq!(result, 0, message)`
  abbrev pub must_be_zero : ℤ → Text → Io p (Unit {0})
  must_be_zero result message = assert (not (is_nonzero result)) message

  abbrev pub c_string : Text → Text → Io p Text
  c_string text message = lift (expected message (cstring_new text))

  unfoldable pub default_device_path : Io p Text
  default_device_path = do
    cells ← get_device_path
    demo_file_path ←
        lift (
          expected (bytes "could not convert the default device path to a String") (read_str cells))
    assert (text_eq demo_file_path default_file_path)
        (bytes "not using the default hdd.img file (are you doing multiple threads?)")
    pure demo_file_path

  unfoldable pub make_image : Text → Text → Text → Io p (Unit {0})
  make_image path no_file no_size = do
    created ← call (p.file_create path)
    expect created no_file
    extended ← call (p.set_len path demo_file_size)
    expect extended no_size

  unfoldable pub start_apa : Text → Io p (Unit {0})
  start_apa message = do
    cells ← get_device_path
    result ← call (p.init_apa cells)
    must_be_zero result message

  unfoldable pub start_pfs : Io p (Unit {0})
  start_pfs = do result ← call p.init_pfs; must_be_zero result (bytes "_init_pfs failed")

  unfoldable pub format_disk : Text → Text → Io p (Unit {0})
  format_disk hdd0_path message = do
    result ← call (p.iomanx_format hdd0_path none none 0)
    must_be_zero result message

  unfoldable pub make_testpart : Io p (Unit {0})
  make_testpart = do
    mkpart_path ← c_string (bytes "hdd0:TESTPART,,,128M,PFS") (bytes "couldn't convert string")
    fd ← call (p.iomanx_open mkpart_path (open_flags p))
    check_result p (bytes "iomanx_open failed") (bytes "could not convert error message a String")
        fd
    closed ← call (p.iomanx_close fd)
    must_be_zero closed (bytes "iomanx_close failed")

  unfoldable pub check_listing : ℕ → Text → Text → List Text → Text → Io p (List (Dirent b))
  check_listing fuel path bad_text names message = do
    dirents ← util_iomanx_dopen_dread p fuel path
    found ← lift (entry_names bad_text dirents)
    assert (texts_eq found names) message
    pure dirents

  unfoldable pub expect_partitions : ℕ → Text → List Text → Io p (Unit {0})
  expect_partitions fuel hdd0_path names = do
    check_listing fuel hdd0_path (bytes "could not convert partition entry name") names
        (bytes "unexpected partition list")
    pure tt

  -- `PFS_ZONE_SIZE`, 0x2d66 and `PFS_FRAGMENT`, in three 32-bit integers.
  unfoldable pub format_testpart : Text → Text → Io p (Unit {0})
  format_testpart pfs0_root_path testpart_path = do
    format_result ← call (
        p.iomanx_format pfs0_root_path (some testpart_path)
          (some (pos 8192 ∷ pos 0x2d66 ∷ pos 0x00000000 ∷ [])) 12)
    check_result p (bytes "iomanx_format failed") (bytes "could not convert error message a String")
        format_result

  unfoldable pub mount_testpart : Text → Text → Io p (Unit {0})
  mount_testpart pfs0_root_path testpart_path = do
    mount_result ← call (p.iomanx_mount pfs0_root_path testpart_path (pos 0))
    check_result p (bytes "iomanx_mount failed") (bytes "could not convert error message a String")
        mount_result

  unfoldable pub make_testdir : Io p (Unit {0})
  make_testdir = do
    pfs0_testdir_path ←
        c_string (bytes "pfs0:/testdir") (bytes "couldn't convert mkdir path string")
    mkdir_result ← call (p.iomanx_mkdir pfs0_testdir_path 0o777)
    check_result p (bytes "iomanx_mkdir failed") (bytes "could not convert error message a String")
        mkdir_result

  -- `pfs0_dirents[2]`
  check_third : List (Dirent b) → Io p (Unit {0})
  check_third (d₀ ∷ d₁ ∷ d₂ ∷ ds) =
      assert (bit_and (b.mode d₂.stat) b.fio_s_ifmt == b.fio_s_ifdir)
        (bytes "expected item at index 2 to be a directory")
  check_third _ = lift (panic (bytes "index out of bounds"))

  unfoldable pub check_root : ℕ → Io p (Unit {0})
  unfolding check_third
  check_root fuel = do
    pfs0_ls_path ← c_string (bytes "pfs0:/") (bytes "couldn't convert ls path string")
    pfs0_dirents ←
        check_listing fuel pfs0_ls_path (bytes "could not convert directory entry name")
          (bytes "." ∷ bytes ".." ∷ bytes "testdir" ∷ []) (bytes "unexpected directory list")
    check_third pfs0_dirents

  unfoldable pub umount : Text → Io p (Unit {0})
  umount pfs0_root_path = do
    result ← call (p.iomanx_umount pfs0_root_path)
    must_be_zero result (bytes "iomanx_umount failed")

  -- Up to the drivers.
  unfoldable pub prepare : Text → Io p (Unit {0})
  prepare demo_file_path = do
    make_image demo_file_path (bytes "couldn't create demo file")
        (bytes "couldn't make demo file the right size")
    start_apa (bytes "_init_apa failed")
    start_pfs

  -- Up to the partition listing.
  unfoldable pub format_and_list : ℕ → Text → Io p (Unit {0})
  format_and_list fuel hdd0_path = do
    format_disk hdd0_path (bytes "iomanx_format failed")
    make_testpart
    expect_partitions fuel hdd0_path (default_names ++ bytes "TESTPART" ∷ [])

  -- Up to the unmounting.
  unfoldable pub write : ℕ → Io p (Unit {0})
  write fuel = do
    testpart_path ← c_string (bytes "hdd0:TESTPART") (bytes "couldn't convert mount path string")
    pfs0_root_path ← c_string (bytes "pfs0:") (bytes "couldn't convert pfs path string")
    format_testpart pfs0_root_path testpart_path
    mount_testpart pfs0_root_path testpart_path
    make_testdir
    check_root fuel
    command p.atad_close
    umount pfs0_root_path

  unfoldable pub second_disk : ℕ → Text → Io p (Unit {0})
  second_disk fuel hdd0_path = do
    make_image demo_1_path (bytes "couldn't create 1st demo file")
        (bytes "couldn't make 1st demo file the right size")
    util_set_atad_device_path p demo_1_path
    start_apa (bytes "second _init_apa failed")
    format_disk hdd0_path (bytes "second iomanx_format failed")
    expect_partitions fuel hdd0_path default_names
    command p.atad_close

  unfoldable pub remove_images : Text → Io p (Unit {0})
  remove_images demo_file_path = do
    removed ← call (p.remove_file demo_file_path)
    expect removed (bytes "could not delete demo file")
    removed_1 ← call (p.remove_file demo_1_path)
    expect removed_1 (bytes "could not delete demo 1 file")

  unfoldable pub format_list_partitions_and_write : ℕ → Io p (Unit {0})
  format_list_partitions_and_write fuel = do
    demo_file_path ← default_device_path
    prepare demo_file_path
    hdd0_path ← c_string (bytes "hdd0:") (bytes "couldn't convert string")
    format_and_list fuel hdd0_path
    write fuel
    second_disk fuel hdd0_path
    remove_images demo_file_path
    util_set_atad_device_path p default_file_path
