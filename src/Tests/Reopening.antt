-- ===== src/Tests/Reopening.antt =====
-- Processes on a machine whose one image can always be opened.
use ps2hdd_rs.Prelude.{
  ◌≡◌, refl, true, false, bytes, [], ◌∷◌, Text, length, replicate, text_eq, returns, ◌⊎◌, arith,
}
use ps2hdd_rs.Ffi.{ok_on_zero_or_strerror}
use ps2hdd_rs.Hdd.Open.{
  open_device, open_marked, write_device_path, check_device_path, init_drivers, write_bytes,
}
use ps2hdd_rs.Hdd.Process.{Process, Steps, none_yet, next, opened, start}
use ps2hdd_rs.Hdd.Process.Exact.{fresh, IsReady, Steps-mark, Steps-reopen}
use ps2hdd_rs.Hdd.Types.{Ps2hdd}
use ps2hdd_rs.Std.CString.{cstring_new, read_str}
use ps2hdd_rs.Std.CString.Laws.{NoNul-cstring_new}
use ps2hdd_rs.Std.Utf8.{from_utf8}
use ps2hdd_rs.Sys.World.{World, on_err, ◌>>=◌}
use ps2hdd_rs.Tests.Machine.{kiosk, kiosk-Tame}
use ps2hdd_rs.Tests.Sim.{image}

abbrev cells : Text
cells = replicate 256 0

size : length cells ≡ 256
unfolding replicate
size = refl

abbrev idle_world : World kiosk
idle_world = record { is_device_active = false; atad_device_path = cells; outside = image }

abbrev busy : Process kiosk
busy = record {
  world = (open_device kiosk (bytes "disk.img") idle_world).1;
  disks = fresh kiosk (bytes "disk.img") ∷ [];
}

open_one : Steps kiosk (start kiosk cells image) busy
unfolding open_device open_marked write_device_path check_device_path init_drivers write_bytes
    text_eq on_err from_utf8 cstring_new read_str bytes ok_on_zero_or_strerror replicate ◌>>=◌
open_one = next (none_yet (start kiosk cells image)) (opened (bytes "disk.img") idle_world [])

Steps-mark_example :
    ((path : Text) → returns (open_device kiosk path busy.world).0 ≡ true)
    × (((busy.world.is_device_active ≡ true) × (self : Ps2hdd) × (busy.disks ≡ self ∷ []))
        ⊎ ((busy.world.is_device_active ≡ false) × (busy.disks ≡ [])))
Steps-mark_example = Steps-mark kiosk kiosk-Tame size open_one

ready : IsReady kiosk (bytes "disk.img")
unfolding bytes from_utf8 cstring_new text_eq
ready = record {
  openable = record {
    text = refl;
    no_nul = (NoNul-cstring_new (bytes "disk.img") refl).1;
    short = omega arith;
  };
  there = λ s. refl;
  apa = λ written s. refl;
  pfs = λ s. refl;
}

Steps-reopen_example :
    (t : Process kiosk) × Steps kiosk busy t × (t.disks ≡ fresh kiosk (bytes "disk.img") ∷ [])
Steps-reopen_example = Steps-reopen kiosk (bytes "disk.img") kiosk-Tame ready size open_one
