-- ===== src/Driver.antt =====
-- ps2hdd/src/driver.rs: directories of a mounted partition.
pub mod CreateAll
pub mod Ended
pub mod Removal
pub mod Missing
pub mod Attempt
pub mod Tree
pub mod Laws
use ps2hdd_rs.Prelude.{
  ℕ, zero, suc, Text, bytes, ◌++◌, Bool, not, ◌&&◌, text_eq, [], ◌∷◌, List, Option, none, some,
  if◌then◌else◌, Outcome, ok, err, panic, undefined, out_of_fuel, map_err, ◌>>?◌, length,
}
use ps2hdd_rs.Ffi.{ok_on_zero_or_strerror, ok_on_nonnegative_or_strerror}
use ps2hdd_rs.Fs.{DirEntry, new}
use ps2hdd_rs.Std.CString.{cstring_new, read_str}
use ps2hdd_rs.Std.FilePath.{parent}
use ps2hdd_rs.Std.Utf8.{from_utf8_lossy}
use ps2hdd_rs.Sys.Bindings.{Bindings, Dirent}
use ps2hdd_rs.Sys.Platform.{Platform}
use ps2hdd_rs.Sys.World.{Io, pure, fail, lift, call, query, attempt, exhausted, ◌>>=◌, ◌>>◌}
use ps2hdd_rs.ReadDir.{Messages, read_directory}

pub record Pfs : Type 0 where
  pub partition_name : Text

pub record Hdlfs : Type 0 where
  pub partition_name : Text

-- The trait: what differs between its implementations.
pub record Driver (D : Type 0) : Type 0 where
  pub get_device_root : D → Text

instance abbrev pub pfs_driver : Driver Pfs
pfs_driver = record { get_device_root = λ self. bytes "pfs0:" }

instance abbrev pub hdlfs_driver : Driver Hdlfs
hdlfs_driver = record { get_device_root = λ self. bytes "hdl0:" }

-- `format!("{}/{}", device_root, path)`
abbrev pub on_device : Text → Text → Text
on_device device_root path = device_root ++ (bytes "/" ++ path)

-- `CString::new` with the message of the path conversions.
abbrev pub path_cstring : Text → Outcome Text
path_cstring path = map_err (λ e. bytes "couldn't convert path: " ++ e) (cstring_new path)

-- What `create_dir_all_impl` makes of the first attempt: all done, an error, or the parent is
-- missing. `is_dir` is the answer of the host's file system.
pub data Verdict : Type 0 where
  done : Verdict
  give_up : Text → Verdict
  climb : Verdict

abbrev pub missing_parent : Text
missing_parent = bytes "failed to create directory: -2, No such file or directory"

unfoldable pub first_verdict : Outcome (Unit {0}) → Bool → Verdict
first_verdict (err e) is_dir =
    if text_eq e missing_parent then climb else if is_dir then done else give_up e
first_verdict _ is_dir = done

unfoldable pub second_verdict : Outcome (Unit {0}) → Bool → Verdict
second_verdict (err e) is_dir = if is_dir then done else give_up e
second_verdict _ is_dir = done

-- The test of `list_dir`: `.` and `..` are left out.
abbrev pub is_listed : Text → Bool
is_listed name = not (text_eq name (bytes ".")) && not (text_eq name (bytes ".."))

abbrev pub dir_messages : Messages
dir_messages = record {
  opening = bytes "Failed to list directory";
  closing = bytes "Failed to close directory handle";
  failed = bytes "Failed to list directories: ";
  bad_name = bytes "could not convert the directory name to a String: ";
}

module _ {b : Bindings} where
  -- The body of the loop of `list_dir`.
  unfoldable pub accept_entry : Text → Dirent b → List (DirEntry b) → Outcome (List (DirEntry b))
  unfolding read_str
  accept_entry root dirent dirents =
      map_err (λ e. dir_messages.bad_name ++ e) (read_str dirent.name) >>? λ name.
      ok (if is_listed name then dirents ++ new dirent root ∷ [] else dirents)

module _ {b : Bindings} (p : Platform b) where
  unfoldable pub create_dir_impl : Text → Text → Io p (Unit {0})
  create_dir_impl device_root path = do
    path ← lift (path_cstring (on_device device_root (from_utf8_lossy path)))
    result ← call (p.iomanx_mkdir path 0o777)
    lift (ok_on_nonnegative_or_strerror p result (bytes "failed to create directory"))
    pure tt

  abbrev pub climb_to : (Text → Io p (Unit {0})) → Option Text → Io p (Unit {0})
  climb_to create (some parent) = create parent
  climb_to create none = fail (bytes "failed to create whole tree")

  unfoldable pub settle : Verdict → Io p (Unit {0})
  settle done = pure tt
  settle (give_up e) = fail e
  settle climb = pure tt

  -- What follows the first attempt; `create` makes a parent with its parents.
  unfoldable pub create_missing : (Text → Io p (Unit {0})) → Text → Text → Verdict → Io p (Unit {0})
  create_missing create device_root path done = pure tt
  create_missing create device_root path (give_up e) = fail e
  create_missing create device_root path climb = do
    climb_to create (parent path)
    second ← attempt (create_dir_impl device_root path)
    is_dir ← query (p.is_dir path)
    settle (second_verdict second is_dir)

  -- The fuel bounds the depth of the calls; a fuel above the path's length is enough.
  unfoldable pub create_dir_all_impl : ℕ → Text → Text → Io p (Unit {0})
  unfolding create_missing settle
  create_dir_all_impl zero device_root path = exhausted
  create_dir_all_impl (suc fuel) device_root path = do
    first ← attempt (create_dir_impl device_root path)
    is_dir ← query (p.is_dir path)
    create_missing (λ parent. create_dir_all_impl fuel device_root parent) device_root path
        (first_verdict first is_dir)

  -- The methods that the trait provides.
  module _ {D : Type 0} ⦃d : Driver D⦄ where
    unfoldable pub create_dir : D → Text → Io p (Unit {0})
    unfolding create_dir_impl
    create_dir self path = create_dir_impl (d.get_device_root self) path

    unfoldable pub create_dir_all : D → Text → Io p (Unit {0})
    unfolding create_dir_all_impl
    create_dir_all self path = create_dir_all_impl (suc (length path)) (d.get_device_root self) path

    unfoldable pub list_dir : ℕ → D → Text → Io p (List (DirEntry b))
    unfolding accept_entry
    list_dir fuel self path = do
      c_path ← lift (path_cstring (on_device (d.get_device_root self) path))
      read_directory p dir_messages fuel (accept_entry path) c_path

    unfoldable pub remove_dir : D → Text → Io p (Unit {0})
    remove_dir self path = do
      path ← lift (path_cstring (on_device (d.get_device_root self) path))
      result ← call (p.iomanx_rmdir path)
      lift (ok_on_nonnegative_or_strerror p result (bytes "failed to delete directory"))
      pure tt

    -- `unimplemented!()`
    unfoldable pub remove_dir_all : D → Text → Io p (Unit {0})
    remove_dir_all self path = lift (panic (bytes "not implemented"))

    unfoldable pub remove_file : D → Text → Io p (Unit {0})
    remove_file self path = lift (panic (bytes "not implemented"))

    unfoldable pub rename : D → Text → Text → Io p (Unit {0})
    rename self from to = lift (panic (bytes "not implemented"))
