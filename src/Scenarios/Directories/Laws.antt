-- ===== src/Scenarios/Directories/Laws.antt =====
-- The scenarios on directories, run from their start to their end.
use ps2hdd_rs.Prelude.{
  ℕ, suc, ◌≡◌, ◌<◌, refl, Text, bytes, List, [], ◌∷◌, false, text_eq, length, arith,
}
use ps2hdd_rs.Driver.{pfs_driver, create_dir, create_dir_all}
use ps2hdd_rs.Driver.Attempt.{device_path}
use ps2hdd_rs.Scenarios.{demo_file_path}
use ps2hdd_rs.Scenarios.Directories.{
  create_and_read, create_path_and_read, pfs_mount_create_and_read_dir, pfs_mount_create_dir_all,
}
use ps2hdd_rs.Scenarios.Directories.Folder.{Folder, make_directory, children, is_plain, all_plain}
use ps2hdd_rs.Scenarios.Directories.Frame.{pfs, remove_lem, succeeds, framed}
use ps2hdd_rs.Scenarios.Directories.Steps.{check_names_lem}
use ps2hdd_rs.Scenarios.Directories.Steps.Making.{root, create_dir_impl-makes, at_once, above_first}
use ps2hdd_rs.Scenarios.Disks.Drive.{Drive}
use ps2hdd_rs.Scenarios.Host.{Host, Passes}
use ps2hdd_rs.Scenarios.Reaches.{Reaches, Reaches-bind}
use ps2hdd_rs.Std.CString.{NoNul, cstring_new}
use ps2hdd_rs.Std.CString.Laws.{NoNul-cstring_new}
use ps2hdd_rs.Std.FilePath.{parent}
use ps2hdd_rs.Std.Utf8.{from_utf8_lossy}
use ps2hdd_rs.Sys.Bindings.{Bindings}
use ps2hdd_rs.Sys.Platform.{Platform}
use ps2hdd_rs.Sys.World.{World}

module _ {b : Bindings} (p : Platform b) (host : Host p (demo_file_path p)) (drive : Drive p host)
    (folder : Folder p host drive) where
  testdir-NoNul : NoNul (device_path root (bytes "testdir"))
  unfolding cstring_new bytes from_utf8_lossy
  testdir-NoNul = (NoNul-cstring_new (device_path root (bytes "testdir")) refl).1

  made_testdir :
      (w : World p)
      → folder.Dirs [] w.outside
      → Reaches
          (create_dir p (pfs p host drive folder) (bytes "testdir"))
          w
          tt
          (folder.Dirs (bytes "testdir" ∷ []))
  unfolding create_dir make_directory is_plain bytes parent
  made_testdir w holds =
      create_dir_impl-makes folder (bytes "testdir") [] w holds refl testdir-NoNul refl

  create_and_read_lem :
      (fuel : ℕ) (v : World p)
      → folder.Dirs [] v.outside
      → 1 < fuel
      → Reaches (create_and_read p (suc (suc fuel)) (pfs p host drive folder)) v tt (λ s. Unit {0})
  unfolding create_and_read children all_plain parent bytes text_eq cstring_new
  create_and_read_lem fuel v holds h =
      Reaches-bind _
        (succeeds p host drive folder _ (bytes "Could not create testdir") v _
          (made_testdir v holds))
        (λ s₁ made.
          Reaches-bind _
            (check_names_lem folder fuel (pfs p host drive folder) [] (bytes "testdir" ∷ [])
              (bytes "testdir" ∷ []) _ made refl refl (NoNul-cstring_new (bytes "pfs0://") refl).1
              refl (omega (arith, h)))
            (λ s₂ kept. remove_lem p host drive folder _ _ kept))

  -- On a machine as for the partitions, whose PFS driver implements the reference for directories,
  -- `pfs_mount_create_and_read_dir` comes to its end with no panic, with fuel for the entries: the
  -- directory is listed, and nothing else is.
  pfs_mount_create_and_read_dir-Passes :
      (fuel : ℕ) (w : World p)
      → w.is_device_active ≡ false
      → length w.atad_device_path ≡ 256
      → 1 < fuel
      → Passes p (pfs_mount_create_and_read_dir p (suc (suc fuel))) w
  unfolding pfs_mount_create_and_read_dir
  pfs_mount_create_and_read_dir-Passes fuel w idle size h =
      framed p host drive folder (create_and_read p (suc (suc fuel))) w idle size
        (λ v holds. create_and_read_lem fuel v holds h)

  abbrev chain : List Text
  chain = bytes "a/b/c/d" ∷ bytes "a/b/c" ∷ bytes "a/b" ∷ bytes "a" ∷ []

  made_chain :
      (w : World p)
      → folder.Dirs [] w.outside
      → Reaches
          (create_dir_all p (pfs p host drive folder) (bytes "a/b/c/d"))
          w
          tt
          (folder.Dirs chain)
  unfolding create_dir_all make_directory is_plain parent cstring_new from_utf8_lossy bytes text_eq
  made_chain w holds =
      above_first folder 7 (bytes "a/b/c/d") (bytes "a/b/c") []
        (bytes "a/b/c" ∷ bytes "a/b" ∷ bytes "a" ∷ []) w holds refl
        (NoNul-cstring_new (device_path root (bytes "a/b/c/d")) refl).1 refl refl refl
        (above_first folder 6 (bytes "a/b/c") (bytes "a/b") [] (bytes "a/b" ∷ bytes "a" ∷ []) w
          holds refl (NoNul-cstring_new (device_path root (bytes "a/b/c")) refl).1 refl refl refl
          (above_first folder 5 (bytes "a/b") (bytes "a") [] (bytes "a" ∷ []) w holds refl
            (NoNul-cstring_new (device_path root (bytes "a/b")) refl).1 refl refl refl
            (at_once folder 4 (bytes "a") [] w holds refl
              (NoNul-cstring_new (device_path root (bytes "a")) refl).1 refl)))

  create_path_and_read_lem :
      (fuel : ℕ) (v : World p)
      → folder.Dirs [] v.outside
      → 1 < fuel
      → Reaches
          (create_path_and_read p (suc (suc fuel)) (pfs p host drive folder))
          v
          tt
          (λ s. Unit {0})
  unfolding create_path_and_read children all_plain parent bytes text_eq cstring_new
  create_path_and_read_lem fuel v holds h =
      Reaches-bind _
        (succeeds p host drive folder _ (bytes "Could not create path") v _ (made_chain v holds))
        (λ s₁ at_1.
          Reaches-bind _
            (check_names_lem folder fuel (pfs p host drive folder) [] chain (bytes "a" ∷ []) _ at_1
              refl refl (NoNul-cstring_new (bytes "pfs0://") refl).1 refl (omega (arith, h)))
            (λ s₂ at_2.
              Reaches-bind _
                (check_names_lem folder fuel (pfs p host drive folder) (bytes "a") chain
                  (bytes "b" ∷ []) _ at_2 refl refl (NoNul-cstring_new (bytes "pfs0://a") refl).1
                  refl (omega (arith, h)))
                (λ s₃ at_3.
                  Reaches-bind _
                    (check_names_lem folder fuel (pfs p host drive folder) (bytes "a/b") chain
                      (bytes "c" ∷ []) _ at_3 refl refl
                      (NoNul-cstring_new (bytes "pfs0://a/b") refl).1 refl (omega (arith, h)))
                    (λ s₄ at_4.
                      Reaches-bind _
                        (check_names_lem folder fuel (pfs p host drive folder) (bytes "a/b/c") chain
                          (bytes "d" ∷ []) _ at_4 refl refl
                          (NoNul-cstring_new (bytes "pfs0://a/b/c") refl).1 refl (omega (arith, h)))
                        (λ s₅ at_5. remove_lem p host drive folder chain _ at_5)))))

  -- Where no disk is open, with an array of 256 bytes, on a machine that can make the image, whose
  -- drivers start on it, whose APA driver keeps a table of partitions, whose PFS driver implements
  -- the reference for directories, and whose `strerror` has the usual texts,
  -- `pfs_mount_create_dir_all` comes to its end with no panic and no disk marked, with fuel for
  -- the entries: one `create_dir_all` makes the four directories, and each listing has the next
  -- one and nothing else.
  pub pfs_mount_create_dir_all-Passes :
      (fuel : ℕ) (w : World p)
      → w.is_device_active ≡ false
      → length w.atad_device_path ≡ 256
      → 1 < fuel
      → Passes p (pfs_mount_create_dir_all p (suc (suc fuel))) w
  unfolding pfs_mount_create_dir_all
  pfs_mount_create_dir_all-Passes fuel w idle size h =
      framed p host drive folder (create_path_and_read p (suc (suc fuel))) w idle size
        (λ v holds. create_path_and_read_lem fuel v holds h)
