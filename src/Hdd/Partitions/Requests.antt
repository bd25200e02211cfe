-- ===== src/Hdd/Partitions/Requests.antt =====
-- What a request to the driver says: the fields of the path that creates a partition, and the
-- device that formats it.
use ps2hdd_rs.Prelude.{
  ℕ, ◌≡◌, refl, false, ◌==◌, if◌then◌else◌, Text, bytes, List, [], ◌∷◌, Option, none, some, All,
}
use ps2hdd_rs.Driver.{Pfs, Hdlfs, pfs_driver, hdlfs_driver}
use ps2hdd_rs.PartitionKind.{PartitionKind, FormattablePartitionKind}
use ps2hdd_rs.Hdd.Partitions.{format_device}
use ps2hdd_rs.Hdd.Partitions.Sizes.{mebibytes}

-- The parts of a text between its commas.
pub split_comma : Text → List Text
split_comma [] = [] ∷ []
split_comma (c ∷ s) = elim (split_comma s) [
  | [] ↦ []
  | part ∷ parts ↦ if c == b',' then [] ∷ part ∷ parts else (c ∷ part) ∷ parts
]

-- A request as the driver reads it: the name, the size in mebibytes and the type.
pub record Request : Type 0 where
  pub name : Text
  pub mebibytes : ℕ
  pub fs_type : Text

request_of : List Text → Option Request
request_of (name ∷ [] ∷ [] ∷ size ∷ fs_type ∷ []) =
    some (record { name = name; mebibytes = mebibytes size; fs_type = fs_type })
request_of _ = none

-- The five fields behind `hdd0:`.
pub read_request : Text → Option Request
read_request (h ∷ d ∷ d' ∷ z ∷ c ∷ s) = request_of (split_comma s)
read_request _ = none

abbrev pub NoComma : Text → Type 0
NoComma = All (λ c. (c == b',') ≡ false)

-- The type that the driver is to make.
abbrev pub requested_type : FormattablePartitionKind → Text
requested_type FormattablePartitionKind.mbr = bytes "PFS"
requested_type FormattablePartitionKind.pfs = bytes "PFS"
requested_type FormattablePartitionKind.hdl = bytes "HDL"

-- The root of the driver whose partitions have this kind; `MBR` has that of `PFS`.
abbrev pub driver_root : Pfs → Hdlfs → FormattablePartitionKind → Text
driver_root pfs hdlfs FormattablePartitionKind.hdl = hdlfs_driver.get_device_root hdlfs
driver_root pfs hdlfs _ = pfs_driver.get_device_root pfs

-- The device that formats a partition is the one under which its driver finds files afterwards.
format_device-get_device_root :
    (kind : FormattablePartitionKind) (pfs : Pfs) (hdlfs : Hdlfs)
    → format_device kind ≡ driver_root pfs hdlfs kind
unfolding format_device bytes
format_device-get_device_root FormattablePartitionKind.mbr pfs hdlfs = refl
format_device-get_device_root FormattablePartitionKind.pfs pfs hdlfs = refl
format_device-get_device_root FormattablePartitionKind.hdl pfs hdlfs = refl
