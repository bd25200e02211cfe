-- ===== src/Hdd/Process/Statics.antt =====
-- The static variables across the methods of an open disk.
use ps2hdd_rs.Prelude.{
  ℕ, zero, suc, Bool, Text, bytes, Option, none, some, ◌≡◌, refl, length, List, ℤ, Outcome,
  Bool-cases, inl, inr, arith,
}
use ps2hdd_rs.Driver.{
  Driver, Verdict, done, give_up, climb, create_dir_impl, climb_to, settle, create_missing,
  create_dir_all_impl, create_dir, create_dir_all, list_dir, remove_dir, remove_dir_all,
  remove_file, rename, first_verdict,
}
use ps2hdd_rs.Std.FilePath.{parent}
use ps2hdd_rs.Hdd.Types.{Ps2hdd}
use ps2hdd_rs.Hdd.Partitions.{initialize, list_partitions, create_partition, format_partition}
use ps2hdd_rs.Hdd.Mounts.{mount, mount_pfs, umount_pfs, mount_hdlfs, umount_hdlfs, is_some}
use ps2hdd_rs.Hdd.Process.{
  Called, initialized, partitions_listed, partition_created, partition_formatted, pfs_mounted,
  pfs_unmounted, hdlfs_mounted, hdlfs_unmounted, dir_created, dirs_created, dir_listed, dir_removed,
  dirs_removed, file_removed, renamed,
}
use ps2hdd_rs.PartitionKind.{FormattablePartitionKind}
use ps2hdd_rs.ReadDir.{Messages, read_loop, read_directory}
use ps2hdd_rs.Sys.Bindings.{Bindings, Dirent}
use ps2hdd_rs.Sys.Platform.{Platform}
use ps2hdd_rs.Sys.World.{World, Io}
use ps2hdd_rs.Sys.World.Keeps.{
  Keeps, Statics, keeps_rules, Keeps-bind, Keeps-exhausted, Keeps-pure, Keeps-fail, Keeps-attempt,
  Keeps-query,
}

module _ {b : Bindings} (p : Platform b) {flag : Bool} {cells : Text} where
  read_loop-Keeps :
      {A : Type 0} (says : Messages) (fuel : ℕ) (handle : ℤ)
      (accept : Dirent b → List A → Outcome (List A)) (d : Dirent b) (out : List A)
      → Keeps (Statics flag cells) (read_loop p says fuel handle accept d out)
  unfolding read_loop
  read_loop-Keeps says zero handle accept d out = Keeps-exhausted
  read_loop-Keeps says (suc fuel) handle accept d out =
      search (keeps_rules, read_loop-Keeps says fuel handle accept) depth 9

  read_directory-Keeps :
      {A : Type 0} (says : Messages) (fuel : ℕ) (accept : Dirent b → List A → Outcome (List A))
      (path : Text)
      → Keeps (Statics flag cells) (read_directory p says fuel accept path)
  unfolding read_directory
  read_directory-Keeps says fuel accept path = search (keeps_rules, read_loop-Keeps) depth 9

  create_dir_impl-Keeps :
      (root path : Text) → Keeps (Statics flag cells) (create_dir_impl p root path)
  unfolding create_dir_impl
  create_dir_impl-Keeps root path = search keeps_rules depth 9

  initialize-Keeps : Keeps (Statics flag cells) (initialize p)
  unfolding initialize
  initialize-Keeps = search keeps_rules depth 9

  list_partitions-Keeps : (fuel : ℕ) → Keeps (Statics flag cells) (list_partitions p fuel)
  unfolding list_partitions
  list_partitions-Keeps fuel = search (keeps_rules, read_directory-Keeps) depth 9

  format_partition-Keeps :
      (name : Text) (kind : FormattablePartitionKind)
      → Keeps (Statics flag cells) (format_partition p name kind)
  unfolding format_partition
  format_partition-Keeps name kind = search keeps_rules depth 9

  create_partition-Keeps :
      (name : Text) (kind : FormattablePartitionKind) (size : ℕ)
      → Keeps (Statics flag cells) (create_partition p name kind size)
  unfolding create_partition
  create_partition-Keeps name kind size = search (keeps_rules, format_partition-Keeps) depth 9

  mount-Keeps : (point name : Text) → Keeps (Statics flag cells) (mount p point name)
  unfolding mount
  mount-Keeps point name = search keeps_rules depth 9

  climb_to-Keeps :
      (create : Text → Io p (Unit {0})) (up : Option Text)
      → ((q : Text) → Keeps (Statics flag cells) (create q))
      → Keeps (Statics flag cells) (climb_to p create up)
  climb_to-Keeps create none h = Keeps-fail _
  climb_to-Keeps create (some q) h = h q

  settle-Keeps : (verdict : Verdict) → Keeps (Statics flag cells) (settle p verdict)
  unfolding settle
  settle-Keeps (give_up e) = Keeps-fail e
  settle-Keeps _ = Keeps-pure tt

  create_missing-Keeps :
      (create : Text → Io p (Unit {0})) (root path : Text) (verdict : Verdict)
      → ((q : Text) → Keeps (Statics flag cells) (create q))
      → Keeps (Statics flag cells) (create_missing p create root path verdict)
  unfolding create_missing
  create_missing-Keeps create root path done h = Keeps-pure tt
  create_missing-Keeps create root path (give_up e) h = Keeps-fail e
  create_missing-Keeps create root path climb h =
      Keeps-bind _ _ (climb_to-Keeps create (parent path) h)
        (λ _. search (keeps_rules, create_dir_impl-Keeps, settle-Keeps) depth 9)

  create_dir_all_impl-Keeps :
      (fuel : ℕ) (root path : Text)
      → Keeps (Statics flag cells) (create_dir_all_impl p fuel root path)
  unfolding create_dir_all_impl
  create_dir_all_impl-Keeps zero root path = Keeps-exhausted
  create_dir_all_impl-Keeps (suc fuel) root path =
      Keeps-bind _ _ (Keeps-attempt _ (create_dir_impl-Keeps root path)) (λ first.
        Keeps-bind _ _ (Keeps-query _) (λ is_dir.
          create_missing-Keeps _ root path (first_verdict first is_dir)
            (create_dir_all_impl-Keeps fuel root)))

  module _ {D : Type 0} ⦃d : Driver D⦄ where
    create_dir-Keeps :
        (mounted : D) (path : Text) → Keeps (Statics flag cells) (create_dir p mounted path)
    unfolding create_dir
    create_dir-Keeps mounted path = create_dir_impl-Keeps _ path

    create_dir_all-Keeps :
        (mounted : D) (path : Text) → Keeps (Statics flag cells) (create_dir_all p mounted path)
    unfolding create_dir_all
    create_dir_all-Keeps mounted path =
        create_dir_all_impl-Keeps (suc (length path)) (d.get_device_root mounted) path

    list_dir-Keeps :
        (fuel : ℕ) (mounted : D) (path : Text)
        → Keeps (Statics flag cells) (list_dir p fuel mounted path)
    unfolding list_dir
    list_dir-Keeps fuel mounted path = search (keeps_rules, read_directory-Keeps) depth 9

    remove_dir-Keeps :
        (mounted : D) (path : Text) → Keeps (Statics flag cells) (remove_dir p mounted path)
    unfolding remove_dir
    remove_dir-Keeps mounted path = search keeps_rules depth 9

    remove_dir_all-Keeps :
        (mounted : D) (path : Text) → Keeps (Statics flag cells) (remove_dir_all p mounted path)
    unfolding remove_dir_all
    remove_dir_all-Keeps mounted path = search keeps_rules depth 9

    remove_file-Keeps :
        (mounted : D) (path : Text) → Keeps (Statics flag cells) (remove_file p mounted path)
    unfolding remove_file
    remove_file-Keeps mounted path = search keeps_rules depth 9

    rename-Keeps :
        (mounted : D) (from to : Text) → Keeps (Statics flag cells) (rename p mounted from to)
    unfolding rename
    rename-Keeps mounted from to = search keeps_rules depth 9

-- The same static variables in two worlds.
abbrev pub SameStatics : {b : Bindings} {p : Platform b} → World p → World p → Type 0
SameStatics w w' =
    (w'.is_device_active ≡ w.is_device_active) × (w'.atad_device_path ≡ w.atad_device_path)

module _ {b : Bindings} (p : Platform b) where
  pfs_slot : (name : Text) (self : Ps2hdd) (w : World p) → SameStatics w (mount_pfs p name self w).1
  unfolding mount_pfs
  pfs_slot name self w = elim (Bool-cases (is_some self.pfs)) [
    | inl taken ↦ rw taken (refl, refl)
    | inr empty ↦ rw empty ((mount-Keeps p (bytes "pfs0:") name).at w (refl, refl))
  ]

  hdlfs_slot :
      (name : Text) (self : Ps2hdd) (w : World p) → SameStatics w (mount_hdlfs p name self w).1
  unfolding mount_hdlfs
  hdlfs_slot name self w = elim (Bool-cases (is_some self.hdlfs)) [
    | inl taken ↦ rw taken (refl, refl)
    | inr empty ↦ rw empty ((mount-Keeps p (bytes "hdl0:") name).at w (refl, refl))
  ]

  -- Where the C functions do not write the array `atad_device_path`, as those of a platform do not,
  -- no method of an open disk, nor of a partition that it lends out, changes the static variables,
  -- whatever it returns.
  pub Called-SameStatics :
      {self : Ps2hdd} {w : World p} {self' : Ps2hdd} {w' : World p}
      → Called p self w self' w'
      → SameStatics w w'
  unfolding umount_pfs umount_hdlfs
  Called-SameStatics (initialized self w) = (initialize-Keeps p).at w (refl, refl)
  Called-SameStatics (partitions_listed fuel self w) =
      (list_partitions-Keeps p fuel).at w (refl, refl)
  Called-SameStatics (partition_created name kind size self w) =
      (create_partition-Keeps p name kind size).at w (refl, refl)
  Called-SameStatics (partition_formatted name kind self w) =
      (format_partition-Keeps p name kind).at w (refl, refl)
  Called-SameStatics (pfs_mounted name self w) = pfs_slot name self w
  Called-SameStatics (pfs_unmounted self w) = ground arith
  Called-SameStatics (hdlfs_mounted name self w) = hdlfs_slot name self w
  Called-SameStatics (hdlfs_unmounted self w) = ground arith
  Called-SameStatics (dir_created mounted path self w) =
      (create_dir-Keeps p mounted path).at w (refl, refl)
  Called-SameStatics (dirs_created mounted path self w) =
      (create_dir_all-Keeps p mounted path).at w (refl, refl)
  Called-SameStatics (dir_listed fuel mounted path self w) =
      (list_dir-Keeps p fuel mounted path).at w (refl, refl)
  Called-SameStatics (dir_removed mounted path self w) =
      (remove_dir-Keeps p mounted path).at w (refl, refl)
  Called-SameStatics (dirs_removed mounted path self w) =
      (remove_dir_all-Keeps p mounted path).at w (refl, refl)
  Called-SameStatics (file_removed mounted path self w) =
      (remove_file-Keeps p mounted path).at w (refl, refl)
  Called-SameStatics (renamed mounted from to self w) =
      (rename-Keeps p mounted from to).at w (refl, refl)
