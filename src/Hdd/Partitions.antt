-- ===== src/Hdd/Partitions.antt =====
-- `PS2HDD::initialize`, `list_partitions`, `create_partition` and `format_partition`.
pub mod Sizes
pub mod Requests
pub mod Listing
pub mod Creation
pub mod Formatting
pub mod Ends
use Prim.Native.Nat.{bit_or}
use ps2hdd_rs.Prelude.{
  ℕ, zero, suc, ◌+◌, ◌*◌, ◌/◌, ◌%◌, ℤ, pos, as_i32, Text, bytes, ◌++◌, List, [], ◌∷◌, map, Bool,
  ◌&&◌, leb, ◌==◌, if◌then◌else◌, Option, none, some, Outcome, ok, err, map_err, ◌>>?◌, ◌-◌,
}
use ps2hdd_rs.Ffi.{ok_on_zero_or_strerror, ok_on_nonnegative_or_strerror}
use ps2hdd_rs.Fs.{PartEntry, part_entry}
use ps2hdd_rs.PartitionKind.{
  PartitionKind, FormattablePartitionKind, as_apa_fs_type, from_formattable,
}
use ps2hdd_rs.ReadDir.{Messages, read_directory}
use ps2hdd_rs.Std.Format.{decimal}
use ps2hdd_rs.Std.CString.{cstring_new}
use ps2hdd_rs.Sys.Bindings.{Bindings, Dirent}
use ps2hdd_rs.Sys.Platform.{Platform}
use ps2hdd_rs.Sys.World.{Io, pure, fail, lift, call, ◌>>=◌, ◌>>◌}

abbrev pub pfs_zone_size : ℤ
pfs_zone_size = pos 8192

abbrev pub pfs_fragment : ℤ
pfs_fragment = pos 0x0000_0000

-- `count_ones` of a `u64`, over its binary digits.
unfoldable pub count_ones : ℕ → ℕ → ℕ
count_ones zero n = 0
count_ones (suc bits) n = n % 2 + count_ones bits (n / 2)

-- `u64::is_power_of_two`
unfoldable pub is_power_of_two : ℕ → Bool
is_power_of_two size = count_ones 64 size == 1

-- The size as the driver reads it: gibibytes from 1024 mebibytes on.
unfoldable pub size_str : ℕ → Text
size_str size =
    if leb 1024 size then decimal (size / 1024) ++ bytes "G" else decimal size ++ bytes "M"

-- `MBR` is treated as `PFS`.
unfoldable pub driver_kind : FormattablePartitionKind → PartitionKind
unfolding from_formattable
driver_kind FormattablePartitionKind.mbr = from_formattable FormattablePartitionKind.pfs
driver_kind v = from_formattable v

-- `str::to_lowercase` of ASCII text.
abbrev ascii_lower : ℕ → ℕ
ascii_lower c = if leb b'A' c && leb c b'Z' then c + 32 else c

unfoldable pub to_lowercase : Text → Text
to_lowercase s = map ascii_lower s

unfoldable pub mkpart_strpath : Text → FormattablePartitionKind → ℕ → Text
unfolding driver_kind as_apa_fs_type
mkpart_strpath partition_name kind size =
    bytes "hdd0:"
    ++ (partition_name
        ++ (bytes ",,," ++ (size_str size ++ (bytes "," ++ as_apa_fs_type (driver_kind kind)))))

-- The device that formats a partition of this kind.
unfoldable pub format_device : FormattablePartitionKind → Text
unfolding driver_kind to_lowercase as_apa_fs_type
format_device kind = to_lowercase (as_apa_fs_type (driver_kind kind)) ++ bytes "0:"

abbrev pub convert_error : Outcome Text → Outcome Text
convert_error = map_err (λ error. bytes "couldn't convert string: " ++ error)

abbrev pub partition_messages : Messages
partition_messages = record {
  opening = bytes "Failed to list partitions";
  closing = bytes "Failed to close root device handle";
  failed = bytes "Failed to list partitions: ";
  bad_name = bytes "could not convert the partition name to a String: ";
}

module _ {b : Bindings} where
  -- The body of the loop of `list_partitions`.
  unfoldable pub accept_partition : Dirent b → List PartEntry → Outcome (List PartEntry)
  accept_partition dirent dirents = part_entry dirent >>? λ entry. ok (dirents ++ entry ∷ [])

module _ {b : Bindings} (p : Platform b) where
  unfoldable pub initialize : Io p (Unit {0})
  initialize = do
    device ← lift (cstring_new (bytes "hdd0:"))
    result ← call (p.iomanx_format device none none 0)
    lift (ok_on_zero_or_strerror p result (bytes "HDD formatting failed"))
    pure tt

  unfoldable pub list_partitions : ℕ → Io p (List PartEntry)
  list_partitions fuel = do
    path ← lift (convert_error (cstring_new (bytes "hdd0:")))
    read_directory p partition_messages fuel accept_partition path

  unfoldable pub format_partition : Text → FormattablePartitionKind → Io p (Unit {0})
  format_partition partition_name kind = do
    device ← lift (cstring_new (format_device kind))
    partition ← lift (cstring_new (bytes "hdd0:" ++ partition_name))
    result ← call (
        p.iomanx_format device (some partition)
          (some (pfs_zone_size ∷ pos 0x2d66 ∷ pfs_fragment ∷ [])) 12)
    lift (ok_on_zero_or_strerror p result (bytes "PFS partition formatting failed"))
    pure tt

  -- `IOMANX_O_RDWR as i32 | IOMANX_O_CREAT as i32`
  abbrev pub open_flags : ℤ
  open_flags = as_i32 (bit_or b.iomanx_o_rdwr b.iomanx_o_creat)

  unfoldable pub create_partition : Text → FormattablePartitionKind → ℕ → Io p (Unit {0})
  create_partition partition_name kind size =
      if is_power_of_two size
      then (do
        mkpart_path ← lift (convert_error (cstring_new (mkpart_strpath partition_name kind size)))
        result ← call (p.iomanx_open mkpart_path open_flags)
        partition_handle ←
            lift (ok_on_nonnegative_or_strerror p result (bytes "Partition creation failed"))
        closed ← call (p.iomanx_close partition_handle)
        lift (ok_on_zero_or_strerror p closed (bytes "Failed to close partition handle"))
        format_partition partition_name kind)
      else fail (bytes "Partition size must be a power of 2")
