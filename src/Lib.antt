-- ===== src/Lib.antt =====
-- A model of `ps2hdd`, a Rust wrapper of the C library `libps2hdd` for PlayStation 2 hard disks, and
-- of the hand-written part of its bindings, `ps2hdd-sys`.
--
-- A process opens a disk (`PS2HDD`), asks for its partitions, creates and formats them, and mounts one
-- `pfs` and one `hdlfs` partition, whose directories the trait `Driver` works on. The operations call
-- the C library, whose integer results become a `Result`.
--
-- Which file models which part:
--
--   Sys/Bindings, Sys/Platform   the generated bindings and the C and host functions, as parameters
--   Sys/World                    the static variables, and actions that read and change them; its
--                                children say what an action keeps and when it ends
--   Sys/Dirent                   ps2hdd-sys/src/lib.rs: `PartialEq` and `Debug` of `iox_dirent_t`
--   Ffi                          ps2hdd/src/ffi_utils.rs: C results
--   PartitionKind                ps2hdd/src/partition_kind.rs
--   Fs                           ps2hdd/src/fs.rs: `FileType`, `DirEntry`, `PartEntry`
--   ReadDir                      the loop that `list_partitions` and `list_dir` share
--   Driver                       ps2hdd/src/driver.rs: `create_dir_all`, `list_dir` and the others
--   Hdd/Open                     ps2hdd/src/lib.rs: `open`, `create`, `drop`
--   Hdd/Partitions               ps2hdd/src/lib.rs: `initialize`, `list_partitions`,
--                                `create_partition`, `format_partition`
--   Hdd/Mounts                   ps2hdd/src/lib.rs: `mount`, `mount_pfs`, `umount_pfs` and the others
--   Hdd/Process                  processes that open, create, use and drop disks, step by step
--   Std                          what the source uses of Rust's library: `CString`, UTF-8, `Path::parent`,
--                                the decimal printing of integers, the escapes of `Debug`, `&`
--                                with a mask
--   Scenarios                    the `tests` modules of ps2hdd/src/lib.rs (Instances, Disks), driver.rs
--                                (Directories), ffi_utils.rs (Results) and ps2hdd-sys/src/lib.rs (Raw),
--                                as programs over the operations, with what they ask of a machine
--   Build                        ps2hdd-sys/build.rs, with meson, bindgen and cargo as parameters
--   Tests                        runs on a small concrete driver
--
-- A `World` is `IS_DEVICE_ACTIVE`, the array `atad_device_path` and the state behind the C library and
-- the host's file system. An action takes a world to an `Outcome` and a world: `ok`, `err`, a `panic`,
-- `undefined` (a C string read past the end of its array) or `out_of_fuel`. A method with `&mut self`
-- returns the object too. A text is the list of its bytes, and a C string is held without its NUL. A
-- panic leaves the static variables as they are. In the scenarios a panic unwinds, and drops the disks
-- that are in scope; the operations themselves have only memory and a file handle to drop.
--
-- Bounds and fuel: `create_dir_all` has the length of the path plus one as its fuel, which is enough
-- because each call is for a shorter path. The loop of a listing has its fuel as an argument, because
-- a driver may serve entries forever; more fuel than entries is enough. A size is a `u64` where a
-- theorem says so. `-result` of `c_int::MIN` panics if the build checks for overflow, and wraps if not; a
-- parameter says which. `to_lowercase` is that of ASCII text, which it is given.
--
-- Not modelled: the C library, which is a parameter with what a theorem needs of it as a hypothesis: its
-- functions have a state of their own, and do not write the array `atad_device_path`; the
-- extern declaration of `iomanx_dread`, which only states a type; the values that `assert_eq!` and
-- `expect` print behind the text of the source; the manifests and the workflow, which hold no code.
mod Prelude
mod Std
pub mod Sys
pub mod Ffi
pub mod PartitionKind
pub mod Fs
pub mod ReadDir
pub mod Driver
pub mod Hdd
mod Scenarios
mod Build
mod Tests
