-- ===== src/Hdd/Mounts.antt =====
-- `PS2HDD::mount_pfs`, `umount_pfs`, `mount_hdlfs`, `umount_hdlfs` and `mount`. A method that takes
-- `&mut self` returns the object beside the world, after an error too.
pub mod Laws
use ps2hdd_rs.Prelude.{
  pos, Text, bytes, ◌++◌, Bool, true, false, if◌then◌else◌, Option, none, some, Outcome, ok, err,
  panic, undefined, out_of_fuel,
}
use ps2hdd_rs.Driver.{Pfs, Hdlfs}
use ps2hdd_rs.Ffi.{ok_on_zero_or_strerror}
use ps2hdd_rs.Hdd.Types.{Ps2hdd}
use ps2hdd_rs.Std.CString.{cstring_new}
use ps2hdd_rs.Sys.Bindings.{Bindings}
use ps2hdd_rs.Sys.Platform.{Platform}
use ps2hdd_rs.Sys.World.{World, Io, pure, lift, call, ◌>>=◌, ◌>>◌}

-- A method with `&mut self`.
abbrev pub Method {ℓ} : {b : Bindings} → Platform b → Type ℓ → Type ℓ
Method p A = Ps2hdd → World p → (Outcome A × Ps2hdd) × World p

-- `self.pfs.as_ref().ok_or_else(..)`
abbrev retrieve {ℓ} : {A : Type ℓ} → Option A → Outcome A
retrieve (some a) = ok a
retrieve none = err (bytes "Failed to retrieve reference")

abbrev pub is_some {ℓ} : {A : Type ℓ} → Option A → Bool
is_some (some a) = true
is_some none = false

-- What a mount makes of the object: `?` on an error leaves it alone.
after_pfs : Ps2hdd → Text → Outcome (Unit {0}) → Outcome Pfs × Ps2hdd
after_pfs self name (ok _) =
    let self' = record self { pfs = some (record { partition_name = name }) } in
    (retrieve self'.pfs, self')
after_pfs self name (err e) = (err e, self)
after_pfs self name (panic e) = (panic e, self)
after_pfs self name undefined = (undefined, self)
after_pfs self name out_of_fuel = (out_of_fuel, self)

after_hdlfs : Ps2hdd → Text → Outcome (Unit {0}) → Outcome Hdlfs × Ps2hdd
after_hdlfs self name (ok _) =
    let self' = record self { hdlfs = some (record { partition_name = name }) } in
    (retrieve self'.hdlfs, self')
after_hdlfs self name (err e) = (err e, self)
after_hdlfs self name (panic e) = (panic e, self)
after_hdlfs self name undefined = (undefined, self)
after_hdlfs self name out_of_fuel = (out_of_fuel, self)

module _ {b : Bindings} (p : Platform b) where
  unfoldable pub mount : Text → Text → Io p (Unit {0})
  mount mount_point partition_name = do
    mount_path ← lift (cstring_new mount_point)
    partition ← lift (cstring_new (bytes "hdd0:" ++ partition_name))
    result ← call (p.iomanx_mount mount_path partition (pos 0))
    lift (ok_on_zero_or_strerror p result (bytes "Mounting failed"))
    pure tt

  unfoldable pub mount_pfs : Text → Method p Pfs
  unfolding after_pfs
  mount_pfs partition_name self w =
      if is_some self.pfs
      then ((err (bytes "A PFS partition is already mounted"), self), w)
      else (let (r, w') = mount (bytes "pfs0:") partition_name w in
          (after_pfs self partition_name r, w'))

  unfoldable pub umount_pfs : Method p (Unit {0})
  umount_pfs self w =
      if is_some self.pfs
      then ((ok tt, record self { pfs = none }), w)
      else ((err (bytes "No PFS partition is mounted; nothing to unmount"), self), w)

  unfoldable pub mount_hdlfs : Text → Method p Hdlfs
  unfolding after_hdlfs
  mount_hdlfs partition_name self w =
      if is_some self.hdlfs
      then ((err (bytes "A PFS partition is already mounted"), self), w)
      else (let (r, w') = mount (bytes "hdl0:") partition_name w in
          (after_hdlfs self partition_name r, w'))

  unfoldable pub umount_hdlfs : Method p (Unit {0})
  umount_hdlfs self w =
      if is_some self.hdlfs
      then ((ok tt, record self { hdlfs = none }), w)
      else ((err (bytes "No HDLFS partition is mounted; nothing to unmount"), self), w)
