-- ===== src/Tests/Listing.antt =====
-- The listings, and a directory read to its end.
use ps2hdd_rs.Prelude.{pos, Text, bytes, List, [], ◌∷◌, ◌≡◌, refl, some, ok, arith}
use ps2hdd_rs.Driver.{Pfs, pfs_driver, on_device, list_dir}
use ps2hdd_rs.Driver.Laws.{listed_entries, list_dir-listed_entries}
use ps2hdd_rs.Fs.{PartEntry, DirEntry, part_entry, kind_of_mode}
use ps2hdd_rs.Hdd.Partitions.{list_partitions, accept_partition, partition_messages}
use ps2hdd_rs.Hdd.Partitions.Listing.{traverse_entries, list_partitions-traverse}
use ps2hdd_rs.PartitionKind.{PartitionKind, kind_of_number, discriminant}
use ps2hdd_rs.Std.CString.{cstring_new, read_str}
use ps2hdd_rs.Std.CString.Laws.{NoNul-cstring_new}
use ps2hdd_rs.ReadDir.{read_directory}
use ps2hdd_rs.ReadDir.Laws.{Session, gather, read_directory-gather}
use ps2hdd_rs.Tests.Sim.{Image, bindings, sim, dirent, image, partitions, world}

abbrev read_out : Image
read_out = record image { entries = [] }

session : (path : Text) → Session sim path partitions image read_out
session path = record {
  handle = 4;
  t' = dirent (bytes "+OPL") 256 524288;
  s₁ = image;
  s₂ = read_out;
  opens = refl;
  serves = (
    pos 1,
    record image { entries = dirent (bytes "+OPL") 256 524288 ∷ [] },
    refl,
    refl,
    (pos 1, read_out, refl, refl, (refl, refl)),
  );
  closes = refl;
}

abbrev found : List PartEntry
found =
    record { name = bytes "__mbr"; kind = some PartitionKind.mbr; size = 134217728 }
    ∷ record { name = bytes "+OPL"; kind = some PartitionKind.pfs; size = 268435456 }
    ∷ []

list_partitions-traverse_example :
    ((list_partitions sim 3 world).0 ≡ traverse_entries partitions)
    × ((es : List PartEntry)
        → traverse_entries partitions ≡ ok es
        → (list_partitions sim 3 world).1 ≡ record world { outside = read_out })
list_partitions-traverse_example =
    list_partitions-traverse sim 3 partitions world read_out (session (bytes "hdd0:")) (omega arith)

read_directory-gather_example :
    ((read_directory sim partition_messages 3 accept_partition (bytes "hdd0:") world).0
      ≡ gather sim accept_partition [] partitions)
    × ((out : List PartEntry)
        → gather sim accept_partition [] partitions ≡ ok out
        → (read_directory sim partition_messages 3 accept_partition (bytes "hdd0:") world).1
          ≡ record world { outside = read_out })
read_directory-gather_example =
    read_directory-gather sim partition_messages 3 accept_partition (bytes "hdd0:") partitions world
      read_out (session (bytes "hdd0:")) (omega arith)

abbrev games : Pfs
games = record { partition_name = bytes "+OPL" }

abbrev games_path : Text
games_path = on_device (pfs_driver.get_device_root games) (bytes "DVD")

list_dir-listed_entries_example :
    ((list_dir sim 3 games (bytes "DVD") world).0 ≡ listed_entries (bytes "DVD") partitions)
    × ((es : List (DirEntry bindings))
        → listed_entries (bytes "DVD") partitions ≡ ok es
        → (list_dir sim 3 games (bytes "DVD") world).1 ≡ record world { outside = read_out })
unfolding cstring_new bytes
list_dir-listed_entries_example =
    list_dir-listed_entries sim 3 games (bytes "DVD") partitions world read_out
      (NoNul-cstring_new games_path refl).1 (session games_path) (omega arith)

-- The entries above, converted.
entries_found : traverse_entries partitions ≡ ok found
unfolding part_entry bytes read_str kind_of_mode kind_of_number discriminant
entries_found = refl
