-- ===== src/Scenarios/Disks.antt =====
-- ps2hdd/src/lib.rs: the tests `initializes_disks_and_lists_partitions` and
-- `initializes_disks_creates_and_formats_partitions`.
pub mod Drive
pub mod Laws
use ps2hdd_rs.Prelude.{ℕ, ◌*◌, Text, bytes, List, [], ◌∷◌, ◌++◌, some, Outcome}
use ps2hdd_rs.Fs.{PartEntry, entries_eq}
use ps2hdd_rs.Hdd.Open.{create, drop}
use ps2hdd_rs.Hdd.Partitions.{initialize, list_partitions, create_partition}
use ps2hdd_rs.PartitionKind.{PartitionKind, FormattablePartitionKind}
use ps2hdd_rs.Scenarios.{scoped, assert, or_panic, demo_file_path, demo_file_size, remove_demo_file}
use ps2hdd_rs.Sys.Bindings.{Bindings}
use ps2hdd_rs.Sys.Platform.{Platform}
use ps2hdd_rs.Sys.World.{Io, attempt, ◌>>=◌, ◌>>◌}

-- A partition of 128 mebibytes.
abbrev pub small : Text → PartitionKind → PartEntry
small name kind = record { name = name; kind = some kind; size = 128 * 1024 * 1024 }

abbrev pub default_entries : List PartEntry
default_entries =
    small (bytes "__mbr") PartitionKind.mbr
    ∷ small (bytes "__net") PartitionKind.pfs
    ∷ small (bytes "__system") PartitionKind.pfs
    ∷ small (bytes "__sysconf") PartitionKind.pfs
    ∷ small (bytes "__common") PartitionKind.pfs
    ∷ []

abbrev pub testpart : Text
testpart = bytes "TESTPART"

module _ {b : Bindings} (p : Platform b) where
  -- `if let Err(message) = result { panic!(message) }`, and the same of a `match`.
  abbrev pub must {ℓ} : {A : Type ℓ} → Io p A → Io p A
  must action = do result ← attempt action; or_panic result

  -- The listing, the comparison, and the end of both tests.
  unfoldable pub check_partitions : ℕ → List PartEntry → Io p (Unit {0})
  check_partitions fuel expected = do
    partitions ← must (list_partitions p fuel)
    assert (entries_eq partitions expected) (bytes "unexpected partition list")
    remove_demo_file p

  -- A panic at the first line has no disk to drop.
  unfoldable pub initializes_disks_and_lists_partitions : ℕ → Io p (Unit {0})
  initializes_disks_and_lists_partitions fuel = do
    must (create p (demo_file_path p) demo_file_size)
    scoped (drop p) (do must (initialize p); check_partitions fuel default_entries)

  unfoldable pub initializes_disks_creates_and_formats_partitions : ℕ → Io p (Unit {0})
  initializes_disks_creates_and_formats_partitions fuel = do
    must (create p (demo_file_path p) demo_file_size)
    scoped (drop p) (do
      must (initialize p)
      must (create_partition p testpart FormattablePartitionKind.pfs 128)
      check_partitions fuel (default_entries ++ small testpart PartitionKind.pfs ∷ []))
