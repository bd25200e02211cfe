-- ===== src/Scenarios/Directories/Frame.antt =====
-- What the two scenarios have in common: a disk with a mounted partition, and its end.
use ps2hdd_rs.Prelude.{◌≡◌, refl, pos, Text, bytes, List, [], ◌∷◌, ◌++◌, false, text_eq, ok, length}
use ps2hdd_rs.Driver.{Pfs, pfs_driver}
use ps2hdd_rs.Ffi.Laws.{ok_on_zero_iff}
use ps2hdd_rs.Hdd.Mounts.{mount, mount_pfs}
use ps2hdd_rs.Hdd.Open.{create, drop}
use ps2hdd_rs.Scenarios.{scoped, assert, or_panic, demo_file_path, demo_file_size, remove_demo_file}
use ps2hdd_rs.Scenarios.Directories.{open_testpart, succeed}
use ps2hdd_rs.Scenarios.Directories.Folder.{Folder}
use ps2hdd_rs.Scenarios.Directories.Steps.Making.{root}
use ps2hdd_rs.Scenarios.Disks.{testpart, must}
use ps2hdd_rs.Scenarios.Disks.Drive.{Drive, initialize_lem, testpart_created}
use ps2hdd_rs.Scenarios.Host.{Host, Passes, disk, remove_demo_file_lem, create-Running, drop-active}
use ps2hdd_rs.Scenarios.Reaches.{Reaches}
use ps2hdd_rs.Std.CString.{cstring_new}
use ps2hdd_rs.Sys.Bindings.{Bindings}
use ps2hdd_rs.Sys.Platform.{Platform}
use ps2hdd_rs.Sys.World.{World, Io, attempt, ◌>>=◌}

module _ {b : Bindings} (p : Platform b) (host : Host p (demo_file_path p)) (drive : Drive p host)
    (folder : Folder p host drive) where
  abbrev pub pfs : Pfs
  pfs = record { partition_name = testpart }

  mount_lem :
      (w : World p) {s' : p.State}
      → p.iomanx_mount root (bytes "hdd0:TESTPART") (pos 0) w.outside ≡ (pos 0, s')
      → mount p root testpart w ≡ (ok tt, record w { outside = s' })
  unfolding mount cstring_new bytes ◌>>=◌
  mount_lem w e =
      rw e (rw ((ok_on_zero_iff p (pos 0) (pos 0) (bytes "Mounting failed")).1 (refl, refl)))

  open_testpart_lem :
      (w : World p)
      → host.There w.outside
      → Reaches (open_testpart p (disk host)) w pfs (folder.Dirs [])
  unfolding open_testpart mount_pfs attempt or_panic assert text_eq bytes ◌>>=◌
  open_testpart_lem w there =
      let (s₁, formats, holds) = drive.disk_formatted w.outside there in
      let w₁ : World p = record w { outside = s₁ } in
      let (handle, s₂, s₃, opens, closes, holds') = drive.partition_made drive.defaults s₁ holds in
      let (s₄, formats', holds'') =
        drive.partition_formatted (drive.defaults ++ drive.added ∷ []) s₃ holds' in
      let w₄ : World p = record w { outside = s₄ } in
      let (s₅, mounts, dirs) = folder.mounted _ s₄ holds'' in
      record {
        outside = s₅;
        reached =
            rw (initialize_lem p w formats)
              (rw (testpart_created p handle w₁ opens closes formats') (rw (mount_lem w₄ mounts)));
        after = dirs;
      }

  -- The end of both.
  pub remove_lem :
      (dirs : List Text) (w : World p)
      → folder.Dirs dirs w.outside
      → Reaches (remove_demo_file p) w tt (λ s. Unit {0})
  remove_lem dirs w holds = record {
    outside = (p.remove_file (demo_file_path p) w.outside).1;
    reached =
        remove_demo_file_lem p w (host.removed w.outside (folder.Dirs-There dirs w.outside holds));
    after = tt;
  }

  pub succeeds :
      (action : Io p (Unit {0})) (message : Text) (w : World p) (After : p.State → Type 0)
      → Reaches action w tt After
      → Reaches (succeed p action message) w tt After
  unfolding attempt ◌>>=◌
  succeeds action message w After r = record {
    outside = r.outside;
    reached = rw (r.reached);
    after = r.after;
  }

  -- What is the same in both.
  pub framed :
      (rest : Pfs → Io p (Unit {0})) (w : World p)
      → w.is_device_active ≡ false
      → length w.atad_device_path ≡ 256
      → ((v : World p) → folder.Dirs [] v.outside → Reaches (rest pfs) v tt (λ s. Unit {0}))
      → Passes p
          (do
            ps2hdd ← must p (create p (demo_file_path p) demo_file_size)
            scoped (drop p) (do pfs ← open_testpart p ps2hdd; rest pfs))
          w
  unfolding scoped attempt or_panic ◌>>=◌
  framed rest w idle size goes =
      let (w₁, creates, run) = create-Running host demo_file_size w idle size in
      let mounted = open_testpart_lem w₁ run.image in
      let done = goes (record w₁ { outside = mounted.outside }) mounted.after in
      let end : World p = record w₁ { outside = done.outside } in
      rw creates
        (rw (mounted.reached) (rw (done.reached) (rw (drop-active host end run.mark) (refl, refl))))
