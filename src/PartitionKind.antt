-- ===== src/PartitionKind.antt =====
-- ps2hdd/src/partition_kind.rs: the kinds of APA partitions.
pub mod Laws
use ps2hdd_rs.Prelude.{ℕ, Text, bytes, ◌==◌, if◌then◌else◌, Outcome, ok, err}

pub data PartitionKind : Type 0 where
  mbr ext2_swap ext2 pfs cfs hdl : PartitionKind

-- The subset for which there are drivers.
pub data FormattablePartitionKind : Type 0 where
  mbr pfs hdl : FormattablePartitionKind

-- `kind as u32`
unfoldable pub discriminant : PartitionKind → ℕ
discriminant PartitionKind.mbr = 0x0001
discriminant PartitionKind.ext2_swap = 0x0082
discriminant PartitionKind.ext2 = 0x0083
discriminant PartitionKind.pfs = 0x0100
discriminant PartitionKind.cfs = 0x0101
discriminant PartitionKind.hdl = 0x1337

-- `kind as isize`; the source defines these by those of `PartitionKind`.
unfoldable pub formattable_discriminant : FormattablePartitionKind → ℕ
unfolding discriminant
formattable_discriminant FormattablePartitionKind.mbr = discriminant PartitionKind.mbr
formattable_discriminant FormattablePartitionKind.pfs = discriminant PartitionKind.pfs
formattable_discriminant FormattablePartitionKind.hdl = discriminant PartitionKind.hdl

unfoldable pub as_apa_fs_type : PartitionKind → Text
as_apa_fs_type PartitionKind.mbr = bytes "MBR"
as_apa_fs_type PartitionKind.ext2_swap = bytes "EXT2SWAP"
as_apa_fs_type PartitionKind.ext2 = bytes "EXT2"
as_apa_fs_type PartitionKind.pfs = bytes "PFS"
as_apa_fs_type PartitionKind.cfs = bytes "CFS"
as_apa_fs_type PartitionKind.hdl = bytes "HDL"

-- `TryFrom<u32> for PartitionKind`
unfoldable pub kind_of_number : ℕ → Outcome PartitionKind
unfolding discriminant
kind_of_number n =
    if discriminant PartitionKind.mbr == n
    then ok PartitionKind.mbr
    else if discriminant PartitionKind.ext2_swap == n
    then ok PartitionKind.ext2_swap
    else if discriminant PartitionKind.ext2 == n
    then ok PartitionKind.ext2
    else if discriminant PartitionKind.pfs == n
    then ok PartitionKind.pfs
    else if discriminant PartitionKind.cfs == n
    then ok PartitionKind.cfs
    else if discriminant PartitionKind.hdl == n
    then ok PartitionKind.hdl
    else err (bytes "Not a valid partition kind value")

-- `TryFrom<PartitionKind> for FormattablePartitionKind`
unfoldable pub to_formattable : PartitionKind → Outcome FormattablePartitionKind
to_formattable PartitionKind.mbr = ok FormattablePartitionKind.mbr
to_formattable PartitionKind.pfs = ok FormattablePartitionKind.pfs
to_formattable PartitionKind.hdl = ok FormattablePartitionKind.hdl
to_formattable _ = err (bytes "Not a formattable partition kind")

-- `From<FormattablePartitionKind> for PartitionKind`
unfoldable pub from_formattable : FormattablePartitionKind → PartitionKind
from_formattable FormattablePartitionKind.mbr = PartitionKind.mbr
from_formattable FormattablePartitionKind.pfs = PartitionKind.pfs
from_formattable FormattablePartitionKind.hdl = PartitionKind.hdl
