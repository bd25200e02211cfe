-- ===== src/Hdd/Process.antt =====
-- A process that opens, uses and drops disks, in any order: the static variables, and the `PS2HDD`
-- values that are alive. A value that is leaked is one that is never dropped.
pub mod Statics
pub mod Reachable
pub mod Exact
use ps2hdd_rs.Prelude.{ℕ, false, Text, List, [], ◌∷◌, ◌++◌, Outcome, ok}
use ps2hdd_rs.Driver.{
  Driver, create_dir, create_dir_all, list_dir, remove_dir, remove_dir_all, remove_file, rename,
}
use ps2hdd_rs.PartitionKind.{FormattablePartitionKind}
use ps2hdd_rs.Hdd.Types.{Ps2hdd}
use ps2hdd_rs.Hdd.Open.{open_device, create, drop}
use ps2hdd_rs.Hdd.Partitions.{initialize, list_partitions, create_partition, format_partition}
use ps2hdd_rs.Hdd.Mounts.{mount_pfs, umount_pfs, mount_hdlfs, umount_hdlfs}
use ps2hdd_rs.Sys.Bindings.{Bindings}
use ps2hdd_rs.Sys.Platform.{Platform}
use ps2hdd_rs.Sys.World.{World}

module _ {b : Bindings} (p : Platform b) where
  -- A call of a method of a disk, or of a partition that it lends out: the object and the world
  -- before and after, whatever the call returns.
  pub data Called : Ps2hdd → World p → Ps2hdd → World p → Type 1 where
    initialized : (self : Ps2hdd) (w : World p) → Called self w self (initialize p w).1
    partitions_listed :
        (fuel : ℕ) (self : Ps2hdd) (w : World p) → Called self w self (list_partitions p fuel w).1
    partition_created :
        (name : Text) (kind : FormattablePartitionKind) (size : ℕ) (self : Ps2hdd) (w : World p)
        → Called self w self (create_partition p name kind size w).1
    partition_formatted :
        (name : Text) (kind : FormattablePartitionKind) (self : Ps2hdd) (w : World p)
        → Called self w self (format_partition p name kind w).1
    pfs_mounted :
        (name : Text) (self : Ps2hdd) (w : World p)
        → Called self w (mount_pfs p name self w).0.1 (mount_pfs p name self w).1
    pfs_unmounted :
        (self : Ps2hdd) (w : World p)
        → Called self w (umount_pfs p self w).0.1 (umount_pfs p self w).1
    hdlfs_mounted :
        (name : Text) (self : Ps2hdd) (w : World p)
        → Called self w (mount_hdlfs p name self w).0.1 (mount_hdlfs p name self w).1
    hdlfs_unmounted :
        (self : Ps2hdd) (w : World p)
        → Called self w (umount_hdlfs p self w).0.1 (umount_hdlfs p self w).1
    dir_created :
        {D : Type 0} ⦃d : Driver D⦄ (mounted : D) (path : Text) (self : Ps2hdd) (w : World p)
        → Called self w self (create_dir p mounted path w).1
    dirs_created :
        {D : Type 0} ⦃d : Driver D⦄ (mounted : D) (path : Text) (self : Ps2hdd) (w : World p)
        → Called self w self (create_dir_all p mounted path w).1
    dir_listed :
        {D : Type 0} ⦃d : Driver D⦄ (fuel : ℕ) (mounted : D) (path : Text) (self : Ps2hdd)
        (w : World p)
        → Called self w self (list_dir p fuel mounted path w).1
    dir_removed :
        {D : Type 0} ⦃d : Driver D⦄ (mounted : D) (path : Text) (self : Ps2hdd) (w : World p)
        → Called self w self (remove_dir p mounted path w).1
    dirs_removed :
        {D : Type 0} ⦃d : Driver D⦄ (mounted : D) (path : Text) (self : Ps2hdd) (w : World p)
        → Called self w self (remove_dir_all p mounted path w).1
    file_removed :
        {D : Type 0} ⦃d : Driver D⦄ (mounted : D) (path : Text) (self : Ps2hdd) (w : World p)
        → Called self w self (remove_file p mounted path w).1
    renamed :
        {D : Type 0} ⦃d : Driver D⦄ (mounted : D) (from to : Text) (self : Ps2hdd) (w : World p)
        → Called self w self (rename p mounted from to w).1

  pub record Process : Type 0 where
    pub world : World p
    pub disks : List Ps2hdd

  -- A disk that was opened is alive.
  abbrev pub push : Outcome Ps2hdd → List Ps2hdd → List Ps2hdd
  push (ok disk) disks = disk ∷ disks
  push _ disks = disks

  pub data Step : Process → Process → Type 1 where
    opened :
        (path : Text) (w : World p) (disks : List Ps2hdd)
        → Step
            (record { world = w; disks = disks })
            (record {
              world = (open_device p path w).1;
              disks = push (open_device p path w).0 disks;
            })
    created :
        (path : Text) (size : ℕ) (w : World p) (disks : List Ps2hdd)
        → Step
            (record { world = w; disks = disks })
            (record {
              world = (create p path size w).1;
              disks = push (create p path size w).0 disks;
            })
    used :
        {self self' : Ps2hdd} {w w' : World p} (before after : List Ps2hdd)
        → Called self w self' w'
        → Step
            (record { world = w; disks = before ++ self ∷ after })
            (record { world = w'; disks = before ++ self' ∷ after })
    dropped :
        (self : Ps2hdd) (w : World p) (before after : List Ps2hdd)
        → Step
            (record { world = w; disks = before ++ self ∷ after })
            (record { world = (drop p w).1; disks = before ++ after })

  -- Any number of steps, in any order.
  pub data Steps : Process → Process → Type 1 where
    none_yet : (s : Process) → Steps s s
    next : {s t u : Process} → Steps s t → Step t u → Steps s u

  -- A process begins with no disk, and with `IS_DEVICE_ACTIVE` as it is initialised.
  abbrev pub start : Text → p.State → Process
  start cells outside = record {
    world = record { is_device_active = false; atad_device_path = cells; outside = outside };
    disks = [];
  }
