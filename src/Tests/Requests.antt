-- ===== src/Tests/Requests.antt =====
-- Creating and formatting partitions.
use ps2hdd_rs.Prelude.{
  [], ◌∷◌, inr, false, is_negative, pos, ok, ◌⊎◌, ◌≢◌, Text, bytes, ◌≡◌, refl, true, err, arith,
}
use ps2hdd_rs.PartitionKind.{FormattablePartitionKind}
use ps2hdd_rs.Hdd.Partitions.{
  initialize, size_str, mkpart_strpath, create_partition, format_partition,
}
use ps2hdd_rs.Hdd.Partitions.Creation.{create_partition_refused}
use ps2hdd_rs.Hdd.Partitions.Ends.{create_partition-ends}
use ps2hdd_rs.Hdd.Partitions.Formatting.{format_partition_lem, initialize_lem}
use ps2hdd_rs.Std.CString.{NoNul}
use ps2hdd_rs.Std.Format.{decimal}
use ps2hdd_rs.Tests.Sim.{sim, world}

abbrev games : Text
games = bytes "+OPL"

request_text : mkpart_strpath games FormattablePartitionKind.pfs 2048 ≡ bytes "hdd0:+OPL,,,2G,PFS"
unfolding mkpart_strpath size_str decimal bytes
request_text = refl

-- A name with a NUL.
abbrev cut_name : Text
cut_name = b'a' ∷ 0 ∷ []

cut_name-nul : ¬ NoNul cut_name
cut_name-nul h = cc

create_partition_refused_example :
    (message : Text) × (create_partition sim cut_name FormattablePartitionKind.pfs 128 world
      ≡ (err message, world))
create_partition_refused_example =
    create_partition_refused sim cut_name FormattablePartitionKind.pfs 128 world (omega arith)
      (inr cut_name-nul)

-- The driver of these tests gives the handle 3, closes it and formats.
create_partition-ends_example :
    ((is_negative (pos 3) ≡ true)
      × (m : Text) × (create_partition sim games FormattablePartitionKind.mbr 2048 world
          ≡ (err m, world)))
    ⊎ (((is_negative (pos 3) ≡ false) × (pos 0 ≢ pos 0))
        × (m : Text) × (create_partition sim games FormattablePartitionKind.mbr 2048 world
            ≡ (err m, world)))
    ⊎ (((is_negative (pos 3) ≡ false) × (pos 0 ≡ pos 0) × (pos 0 ≢ pos 0))
        × (m : Text) × (create_partition sim games FormattablePartitionKind.mbr 2048 world
            ≡ (err m, world)))
    ⊎ (((is_negative (pos 3) ≡ false) × (pos 0 ≡ pos 0) × (pos 0 ≡ pos 0))
        × (create_partition sim games FormattablePartitionKind.mbr 2048 world ≡ (ok tt, world)))
unfolding bytes
create_partition-ends_example =
    create_partition-ends sim games FormattablePartitionKind.mbr 2048 world (omega arith)
      (11, omega arith, refl) (refl, (refl, (refl, (refl, tt)))) refl refl refl

initialize_lem_example :
    ((pos 0 ≡ pos 0) × (initialize sim world ≡ (ok tt, world)))
    ⊎ ((pos 0 ≢ pos 0) × (m : Text) × (initialize sim world ≡ (err m, world)))
initialize_lem_example = initialize_lem sim world refl

format_partition_lem_example :
    ((pos 0 ≡ pos 0)
      × (format_partition sim games FormattablePartitionKind.hdl world ≡ (ok tt, world)))
    ⊎ ((pos 0 ≢ pos 0)
        × (m : Text) × (format_partition sim games FormattablePartitionKind.hdl world
            ≡ (err m, world)))
unfolding bytes
format_partition_lem_example =
    format_partition_lem sim games FormattablePartitionKind.hdl world
      (refl, (refl, (refl, (refl, tt)))) refl
