-- ===== src/Tests/Processes.antt =====
-- A process that opens a disk, mounts a partition of it, and drops it.
use ps2hdd_rs.Prelude.{
  ◌≤◌, ◌≡◌, bytes, List, [], ◌∷◌, ◌++◌, false, none, some, ok, length, replicate, text_eq,
}
use ps2hdd_rs.Ffi.{ok_on_zero_or_strerror}
use ps2hdd_rs.Hdd.Mounts.{mount, mount_pfs}
use ps2hdd_rs.Hdd.Open.{
  open_device, open_marked, write_device_path, check_device_path, init_drivers, write_bytes, drop,
}
use ps2hdd_rs.Hdd.Process.{Process, Steps, none_yet, next, opened, used, pfs_mounted, start}
use ps2hdd_rs.Hdd.Process.Reachable.{Steps-one_disk, Steps-drop}
use ps2hdd_rs.Hdd.Process.Statics.{SameStatics, Called-SameStatics}
use ps2hdd_rs.Hdd.Types.{Ps2hdd}
use ps2hdd_rs.Std.CString.{cstring_new, read_str}
use ps2hdd_rs.Std.Utf8.{from_utf8}
use ps2hdd_rs.Sys.World.{World, on_err, ◌>>=◌}
use ps2hdd_rs.Tests.Sim.{sim, image, world}

abbrev fresh : Ps2hdd
fresh = record { path = bytes "disk.img"; pfs = none; hdlfs = none }

abbrev mounted : Ps2hdd
mounted = record {
  path = bytes "disk.img";
  pfs = some (record { partition_name = bytes "+OPL" });
  hdlfs = none;
}

abbrev opened_world : World sim
opened_world = (open_device sim (bytes "disk.img") world).1

abbrev mounted_world : World sim
mounted_world = (mount_pfs sim (bytes "+OPL") fresh opened_world).1

abbrev reached : Process sim
reached = record { world = mounted_world; disks = mounted ∷ [] }

abbrev no_disks : List Ps2hdd
no_disks = []

abbrev initial : Process sim
initial = start sim (replicate 256 0) image

open_one : Steps sim initial (record { world = opened_world; disks = fresh ∷ [] })
unfolding open_device open_marked write_device_path check_device_path init_drivers write_bytes
    text_eq on_err from_utf8 cstring_new read_str bytes ok_on_zero_or_strerror replicate ◌>>=◌
open_one = next (none_yet initial) (opened (bytes "disk.img") world [])

mount_one : Steps sim initial reached
unfolding mount_pfs mount cstring_new bytes ok_on_zero_or_strerror ◌>>=◌
mount_one = next open_one (used [] [] (pfs_mounted (bytes "+OPL") fresh opened_world))

Steps-one_disk_example :
    (length reached.disks ≤ 1) × (reached.world.is_device_active ≡ false → reached.disks ≡ [])
Steps-one_disk_example = Steps-one_disk sim mount_one

Steps-drop_example :
    (drop sim mounted_world ≡ (
      ok tt,
      record {
        is_device_active = false;
        atad_device_path = mounted_world.atad_device_path;
        outside = sim.atad_close mounted_world.outside;
      },
    ))
    × (no_disks ++ no_disks ≡ no_disks)
Steps-drop_example = Steps-drop sim mounted no_disks no_disks mount_one

Called-SameStatics_example : SameStatics opened_world mounted_world
Called-SameStatics_example = Called-SameStatics sim (pfs_mounted (bytes "+OPL") fresh opened_world)
