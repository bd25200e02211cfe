-- ===== src/Scenarios/Disks/Laws.antt =====
-- The scenarios on partitions, run from their start to their end.
use ps2hdd_rs.Prelude.{
  ℕ, ◌+◌, ◌<◌, ◌≡◌, refl, false, List, [], ◌∷◌, ◌++◌, ok, length, length-append, arith,
}
use ps2hdd_rs.Fs.{PartEntry}
use ps2hdd_rs.Hdd.Partitions.Listing.{traverse_entries}
use ps2hdd_rs.PartitionKind.{PartitionKind}
use ps2hdd_rs.Scenarios.{demo_file_path, demo_file_size, scoped, or_panic, assert}
use ps2hdd_rs.Scenarios.Disks.{
  small, default_entries, testpart, check_partitions, initializes_disks_and_lists_partitions,
  initializes_disks_creates_and_formats_partitions,
}
use ps2hdd_rs.Scenarios.Disks.Drive.{
  Drive, entries_eq_refl, traverse_entries-append, initialize_lem, testpart_created, listed_lem,
}
use ps2hdd_rs.Scenarios.Host.{Host, Passes, remove_demo_file_lem, create-Running, drop-active}
use ps2hdd_rs.Sys.Bindings.{Bindings, Dirent}
use ps2hdd_rs.Sys.Platform.{Platform}
use ps2hdd_rs.Sys.World.{World, attempt, ◌>>=◌}

module _ {b : Bindings} (p : Platform b) (host : Host p (demo_file_path p))
    (drive : Drive p host) where
  -- A table that is shown as it is expected ends both tests well.
  check_partitions_lem :
      (fuel : ℕ) (ds : List (Dirent b)) (es : List PartEntry) (w : World p)
      → drive.Holds ds w.outside
      → traverse_entries ds ≡ ok es
      → length ds < fuel
      → (s' : p.State) × (check_partitions p fuel es w ≡ (ok tt, record w { outside = s' }))
  unfolding check_partitions attempt or_panic assert ◌>>=◌
  check_partitions_lem fuel ds es w holds all h =
      let (s', session, holds') = drive.listed ds w.outside holds in
      let w' : World p = record w { outside = s' } in
      let there = drive.Holds-There ds s' holds' in
      (
        (p.remove_file (demo_file_path p) s').1,
        rw (listed_lem p fuel ds es w s' session h all)
            (rw (entries_eq_refl es) (remove_demo_file_lem p w' (host.removed s' there))),
      )

  -- On a machine that can make the file, whose drivers start on it, and whose APA driver keeps a
  -- table with the default partitions after a format, `initializes_disks_and_lists_partitions` comes
  -- to its end with no panic, for more fuel than there are default entries: the list is the one that
  -- the test asks for.
  initializes_disks_and_lists_partitions-Passes :
      (fuel : ℕ) (w : World p)
      → w.is_device_active ≡ false
      → length w.atad_device_path ≡ 256
      → length drive.defaults < fuel
      → Passes p (initializes_disks_and_lists_partitions p fuel) w
  unfolding initializes_disks_and_lists_partitions scoped attempt or_panic ◌>>=◌
  initializes_disks_and_lists_partitions-Passes fuel w idle size h =
      let (w₁, creates, run) = create-Running host demo_file_size w idle size in
      let (s₂, formats, holds) = drive.disk_formatted w₁.outside run.image in
      let w₂ : World p = record w₁ { outside = s₂ } in
      let (s₃, checks) =
        check_partitions_lem fuel drive.defaults default_entries w₂ holds drive.shown h in
      rw creates (
        rw (initialize_lem p w₁ formats)
          (rw checks (rw (drop-active host (record w₁ { outside = s₃ }) run.mark) (refl, refl))))

  -- Where no disk is open, with an array of 256 bytes, on a machine that can make the image, whose
  -- drivers start on it, and whose APA driver keeps a table with the default partitions after a
  -- format and adds one for a request, `initializes_disks_creates_and_formats_partitions` comes to
  -- its end with no panic and no disk marked, for more fuel than there are entries: the list has
  -- the new partition behind the default ones.
  pub initializes_disks_creates_and_formats_partitions-Passes :
      (fuel : ℕ) (w : World p)
      → w.is_device_active ≡ false
      → length w.atad_device_path ≡ 256
      → length drive.defaults + 1 < fuel
      → Passes p (initializes_disks_creates_and_formats_partitions p fuel) w
  unfolding initializes_disks_creates_and_formats_partitions scoped attempt or_panic ◌>>=◌
  initializes_disks_creates_and_formats_partitions-Passes fuel w idle size h =
      let (w₁, creates, run) = create-Running host demo_file_size w idle size in
      let (s₂, formats, holds) = drive.disk_formatted w₁.outside run.image in
      let w₂ : World p = record w₁ { outside = s₂ } in
      let (handle, s₃, s₄, opens, closes, holds') = drive.partition_made drive.defaults s₂ holds in
      let (s₅, formats', holds'') =
        drive.partition_formatted (drive.defaults ++ drive.added ∷ []) s₄ holds' in
      let w₅ : World p = record w₁ { outside = s₅ } in
      let (s₆, checks) =
        check_partitions_lem fuel (drive.defaults ++ drive.added ∷ [])
          (default_entries ++ small testpart PartitionKind.pfs ∷ []) w₅ holds''
          (traverse_entries-append drive.defaults drive.added drive.shown drive.added_shown)
          (omega (arith, length-append drive.defaults (drive.added ∷ []))) in
      rw creates (
        rw (initialize_lem p w₁ formats) (
          rw (testpart_created p handle w₂ opens closes formats')
            (rw checks (rw (drop-active host (record w₁ { outside = s₆ }) run.mark) (refl, refl)))))
