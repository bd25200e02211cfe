-- ===== src/Scenarios/Directories.antt =====
-- ps2hdd/src/driver.rs: the tests `pfs_mount_create_and_read_dir` and `pfs_mount_create_dir_all`.
pub mod Folder
pub mod Steps
pub mod Frame
pub mod Laws
use ps2hdd_rs.Prelude.{ℕ, Text, bytes, List, [], ◌∷◌, text_eq, Outcome, ok, ◌>>?◌}
use ps2hdd_rs.Driver.{Pfs, pfs_driver, create_dir, create_dir_all, list_dir}
use ps2hdd_rs.Fs.{DirEntry, file_name}
use ps2hdd_rs.Hdd.Mounts.{Method, mount_pfs}
use ps2hdd_rs.Hdd.Open.{create, drop}
use ps2hdd_rs.Hdd.Partitions.{initialize, create_partition}
use ps2hdd_rs.Hdd.Types.{Ps2hdd}
use ps2hdd_rs.PartitionKind.{FormattablePartitionKind}
use ps2hdd_rs.Scenarios.{scoped, assert, or_panic, demo_file_path, demo_file_size, remove_demo_file}
use ps2hdd_rs.Scenarios.Disks.{must, testpart}
use ps2hdd_rs.Scenarios.Raw.{expected}
use ps2hdd_rs.Scenarios.Raw.Writing.{texts_eq}
use ps2hdd_rs.Std.Utf8.{from_utf8}
use ps2hdd_rs.Sys.Bindings.{Bindings}
use ps2hdd_rs.Sys.Platform.{Platform}
use ps2hdd_rs.Sys.World.{Io, pure, lift, attempt, ◌>>=◌, ◌>>◌}

unfoldable pub get_directory_entry_names : {b : Bindings} → List (DirEntry b) → Outcome (List Text)
unfolding file_name
get_directory_entry_names [] = ok []
get_directory_entry_names (dirent ∷ dirents) = file_name dirent >>? λ name.
    expected (bytes "could not convert partition entry name") (from_utf8 name) >>? λ text.
    get_directory_entry_names dirents >>? λ texts. ok (text ∷ texts)

module _ {b : Bindings} (p : Platform b) where
  -- A method with `&mut self` whose result is looked at; the object is not used again.
  abbrev pub on_object {ℓ} : {A : Type ℓ} → Method p A → Ps2hdd → Io p A
  on_object method self w = let ((result, self'), w') = method self w in or_panic result w'

  -- `action.expect(message)`
  abbrev pub succeed {ℓ} : {A : Type ℓ} → Io p A → Text → Io p A
  succeed action message = do result ← attempt action; lift (expected message result)

  -- What both tests do with a disk before they differ.
  unfoldable pub open_testpart : Ps2hdd → Io p Pfs
  open_testpart ps2hdd = do
    must p (initialize p)
    must p (create_partition p testpart FormattablePartitionKind.pfs 128)
    pfs ← on_object (mount_pfs p testpart) ps2hdd
    assert (text_eq pfs.partition_name (bytes "TESTPART")) (bytes "Unexpected partition reference")
    pure pfs

  unfoldable pub check_names : ℕ → Pfs → Text → List Text → Io p (Unit {0})
  check_names fuel pfs path names = do
    direntries ← succeed (list_dir p fuel pfs path) (bytes "Could not list directory")
    found ← lift (get_directory_entry_names direntries)
    assert (texts_eq found names) (bytes "Unexpected directory list")

  unfoldable pub create_and_read : ℕ → Pfs → Io p (Unit {0})
  create_and_read fuel pfs = do
    succeed (create_dir p pfs (bytes "testdir")) (bytes "Could not create testdir")
    check_names fuel pfs (bytes "/") (bytes "testdir" ∷ [])
    remove_demo_file p

  unfoldable pub create_path_and_read : ℕ → Pfs → Io p (Unit {0})
  create_path_and_read fuel pfs = do
    succeed (create_dir_all p pfs (bytes "a/b/c/d")) (bytes "Could not create path")
    check_names fuel pfs (bytes "/") (bytes "a" ∷ [])
    check_names fuel pfs (bytes "/a") (bytes "b" ∷ [])
    check_names fuel pfs (bytes "/a/b") (bytes "c" ∷ [])
    check_names fuel pfs (bytes "/a/b/c") (bytes "d" ∷ [])
    remove_demo_file p

  unfoldable pub pfs_mount_create_and_read_dir : ℕ → Io p (Unit {0})
  pfs_mount_create_and_read_dir fuel = do
    ps2hdd ← must p (create p (demo_file_path p) demo_file_size)
    scoped (drop p) (do pfs ← open_testpart ps2hdd; create_and_read fuel pfs)

  unfoldable pub pfs_mount_create_dir_all : ℕ → Io p (Unit {0})
  pfs_mount_create_dir_all fuel = do
    ps2hdd ← must p (create p (demo_file_path p) demo_file_size)
    scoped (drop p) (do pfs ← open_testpart ps2hdd; create_path_and_read fuel pfs)
