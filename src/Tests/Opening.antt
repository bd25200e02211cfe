-- ===== src/Tests/Opening.antt =====
-- `open`, the guard of the one open disk, and the mounts.
use ps2hdd_rs.Prelude.{
  ◌↔◌, ◌++◌, Option, pos, ◌≢◌, Text, bytes, true, ◌≡◌, refl, none, some, ◌||◌, not, is_err, is_ok,
  ok, text_eq, replicate, err, ◌⊎◌, false,
}
use ps2hdd_rs.Driver.{Pfs}
use ps2hdd_rs.Hdd.Types.{Ps2hdd}
use ps2hdd_rs.Hdd.Open.{
  create, open_device, open_marked, write_device_path, check_device_path, init_drivers, write_bytes,
}
use ps2hdd_rs.Hdd.Open.Guard.{active-open_device}
use ps2hdd_rs.Hdd.Open.Creation.{create-open_device}
use ps2hdd_rs.Hdd.Open.Drivers.{closed, init_drivers-closed}
use ps2hdd_rs.Hdd.Open.Refines.{open_promised, open_device-open_promised}
use ps2hdd_rs.Hdd.Mounts.{mount, mount_pfs, umount_pfs, mount_hdlfs}
use ps2hdd_rs.Hdd.Mounts.Laws.{mount_pfs_slot, umount_pfs-mount_pfs, mount_twice}
use ps2hdd_rs.Ffi.{ok_on_zero_or_strerror}
use ps2hdd_rs.Std.CString.{cstring_new, read_str, NoNul}
use ps2hdd_rs.Std.Utf8.{from_utf8}
use ps2hdd_rs.Sys.World.{World, on_err, ◌>>=◌}
use ps2hdd_rs.Tests.Sim.{image, sim, world}

abbrev disk : Ps2hdd
disk = record { path = bytes "disk.img"; pfs = none; hdlfs = none }

-- The first disk opens, a second is refused.
opens : (open_device sim (bytes "disk.img") world).0 ≡ ok disk
unfolding open_device open_marked write_device_path check_device_path init_drivers write_bytes
    text_eq on_err from_utf8 cstring_new read_str bytes ok_on_zero_or_strerror replicate ◌>>=◌
opens = refl

open_device-open_promised_example :
    open_device sim (bytes "disk.img") world ≡ open_promised sim (bytes "disk.img") world
unfolding bytes replicate text_eq
open_device-open_promised_example = open_device-open_promised sim (bytes "disk.img") world refl refl

active-open_device_example :
    (open_device sim (bytes "disk.img") world).1.is_device_active
    ≡ (world.is_device_active || not (is_err (open_device sim (bytes "disk.img") world).0))
active-open_device_example = active-open_device sim (bytes "disk.img") world

umount_pfs-mount_pfs_example :
    umount_pfs sim
      (mount_pfs sim (bytes "+OPL") disk world).0.1
      (mount_pfs sim (bytes "+OPL") disk world).1
    ≡ ((ok tt, disk), (mount_pfs sim (bytes "+OPL") disk world).1)
unfolding mount_pfs mount bytes cstring_new ok_on_zero_or_strerror ◌>>=◌
umount_pfs-mount_pfs_example = umount_pfs-mount_pfs sim (bytes "+OPL") disk world refl

abbrev fresh_pfs : Pfs
fresh_pfs = record { partition_name = bytes "+OPL" }

mount_pfs_slot_example :
    let ((result, self'), w') = mount_pfs sim (bytes "+OPL") disk world in
    let (code, s) =
      sim.iomanx_mount (bytes "pfs0:") (bytes "hdd0:" ++ bytes "+OPL") (pos 0) world.outside in
    ((is_ok result ≡ true) ↔ ((disk.pfs ≡ none) × NoNul (bytes "+OPL") × (code ≡ pos 0)))
    × (is_ok result ≡ true
        → (result ≡ ok fresh_pfs)
          × (w' ≡ record world { outside = s })
          × (self' ≡ record disk { pfs = some fresh_pfs }))
    × (is_ok result ≡ false → self' ≡ disk)
mount_pfs_slot_example = mount_pfs_slot sim (bytes "+OPL") disk world

mount_twice_example :
    let ((pfs, self₁), w₁) = mount_pfs sim (bytes "+OPL") disk world in
    let ((hdlfs, self₂), w₂) = mount_hdlfs sim (bytes "+OPL") disk world in
    let refused = bytes "A PFS partition is already mounted" in
    (is_ok pfs ≡ true → mount_pfs sim (bytes "__common") self₁ w₁ ≡ ((err refused, self₁), w₁))
    × (is_ok hdlfs ≡ true
        → mount_hdlfs sim (bytes "__common") self₂ w₂ ≡ ((err refused, self₂), w₂))
mount_twice_example = mount_twice sim (bytes "+OPL") (bytes "__common") disk world

init_drivers-closed_example :
    ((pos 0 ≡ pos 0) × (pos 0 ≡ pos 0) × (init_drivers sim world ≡ (ok tt, world)))
    ⊎ ((pos 0 ≢ pos 0)
        × (m : Text) × (init_drivers sim world ≡ (err m, closed sim world world.outside)))
    ⊎ ((pos 0 ≡ pos 0)
        × (pos 0 ≢ pos 0)
        × (m : Text) × (init_drivers sim world ≡ (err m, closed sim world world.outside)))
init_drivers-closed_example = init_drivers-closed sim world refl refl

abbrev no_error : Option Text
no_error = none

abbrev with_file : World sim
with_file = record world { outside = record image { file = bytes "new.img" } }

create-open_device_example :
    ((e : Text) × (no_error ≡ some e)
      × (create sim (bytes "new.img") 4096 world ≡ (err e, with_file)))
    ⊎ ((no_error ≡ none)
        × (e : Text) × (no_error ≡ some e)
        × (create sim (bytes "new.img") 4096 world ≡ (err e, with_file)))
    ⊎ ((no_error ≡ none)
        × (no_error ≡ none)
        × (create sim (bytes "new.img") 4096 world ≡ open_device sim (bytes "new.img") with_file))
create-open_device_example = create-open_device sim (bytes "new.img") 4096 world
