-- ===== src/Scenarios/Raw/Writing/Directory.antt =====
-- The phases that mount the partition and write to it, on the bench.
use ps2hdd_rs.Prelude.{ℕ, ◌<◌, ◌≡◌, refl, Text, bytes, List, [], ◌∷◌, ok}
use ps2hdd_rs.Scenarios.{assert}
use ps2hdd_rs.Scenarios.Reaches.{Reaches, Reaches-bind}
use ps2hdd_rs.Scenarios.Raw.{check_result}
use ps2hdd_rs.Scenarios.Raw.Writing.{
  c_string, format_testpart, mount_testpart, make_testdir, check_third, check_root, umount, write,
}
use ps2hdd_rs.Scenarios.Raw.Writing.Bench.{Bench}
use ps2hdd_rs.Scenarios.Raw.Writing.Disk.{check_listing_lem}
use ps2hdd_rs.Std.CString.{cstring_new}
use ps2hdd_rs.Sys.Bindings.{Bindings, Dirent}
use ps2hdd_rs.Sys.Platform.{Platform}
use ps2hdd_rs.Sys.World.{World, command, ◌>>=◌, ◌>>◌}

-- A text with no NUL becomes a C string.
c_string_lem :
    {b : Bindings} {p : Platform b} (text message : Text) (w : World p) (After : p.State → Type 0)
    → cstring_new text ≡ ok text
    → After w.outside
    → Reaches (c_string p text message) w text After
unfolding ◌>>=◌
c_string_lem text message w After e after = record {
  outside = w.outside;
  reached = rw e;
  after = after;
}

module _ {b : Bindings} {p : Platform b} (bench : Bench p) where
  format_testpart_lem :
      (ds : List (Dirent b)) (w : World p)
      → bench.Table ds w.outside
      → Reaches (format_testpart p (bytes "pfs0:") (bytes "hdd0:TESTPART")) w tt (bench.Table ds)
  unfolding format_testpart check_result ◌>>=◌
  format_testpart_lem ds w table =
      let (s, e, table') = bench.partition_formatted ds w.outside table in
      record { outside = s; reached = rw e; after = table' }

  mount_testpart_lem :
      (ds : List (Dirent b)) (w : World p)
      → bench.Table ds w.outside
      → Reaches
          (mount_testpart p (bytes "pfs0:") (bytes "hdd0:TESTPART"))
          w
          tt
          (bench.Root (bench.dot ∷ bench.dot_dot ∷ []))
  unfolding mount_testpart check_result ◌>>=◌
  mount_testpart_lem ds w table =
      let (s, e, root) = bench.mounted ds w.outside table in
      record { outside = s; reached = rw e; after = root }

  abbrev written_root : List (Dirent b)
  written_root = bench.dot ∷ bench.dot_dot ∷ bench.testdir ∷ []

  make_testdir_lem :
      (w : World p)
      → bench.Root (bench.dot ∷ bench.dot_dot ∷ []) w.outside
      → Reaches (make_testdir p) w tt (bench.Root written_root)
  unfolding make_testdir check_result cstring_new bytes ◌>>=◌
  make_testdir_lem w root =
      let (s, e, root') = bench.directory_made w.outside root in
      record { outside = s; reached = rw e; after = root' }

  check_third_lem :
      (w : World p)
      → bench.Root written_root w.outside
      → Reaches (check_third p written_root) w tt (bench.Root written_root)
  unfolding check_third assert ◌>>=◌
  check_third_lem w root = record {
    outside = w.outside;
    reached = rw bench.testdir_directory;
    after = root;
  }

  check_root_lem :
      (fuel : ℕ) (w : World p)
      → bench.Root written_root w.outside
      → 3 < fuel
      → Reaches (check_root p fuel) w tt (bench.Root written_root)
  unfolding check_root cstring_new bytes
  check_root_lem fuel w root h =
      let (s', session, root') = bench.root_listed written_root w.outside root in
      Reaches-bind _
        (c_string_lem (bytes "pfs0:/") (bytes "couldn't convert ls path string") w
          (λ s. s ≡ w.outside) refl refl)
        (λ s same.
          Reaches-bind _
            (check_listing_lem bench fuel (bytes "pfs0:/")
              (bytes "could not convert directory entry name") (bytes "unexpected directory list")
              (bytes "." ∷ bytes ".." ∷ bytes "testdir" ∷ []) written_root
              (record w { outside = s }) s' (bench.Root written_root) (rw same session) root' h
              (bench.root_shown (bytes "could not convert directory entry name")))
            (λ s kept. check_third_lem _ kept))

  close_lem :
      (ds : List (Dirent b)) (w : World p)
      → bench.Root ds w.outside
      → Reaches (command p.atad_close >> umount p (bytes "pfs0:")) w tt (λ s. Unit {0})
  unfolding umount assert ◌>>=◌
  close_lem ds w root = record {
    outside = (p.iomanx_umount (bytes "pfs0:") (p.atad_close w.outside)).1;
    reached = rw (bench.umounted ds w.outside root);
    after = tt;
  }

  pub write_lem :
      (fuel : ℕ) (ds : List (Dirent b)) (w : World p)
      → bench.Table ds w.outside
      → 3 < fuel
      → Reaches (write p fuel) w tt (λ s. Unit {0})
  unfolding write cstring_new bytes
  write_lem fuel ds w table h =
      Reaches-bind _
        (c_string_lem (bytes "hdd0:TESTPART") (bytes "couldn't convert mount path string") w
          (bench.Table ds) refl table)
        (λ s₁ at_1.
          Reaches-bind _
            (c_string_lem (bytes "pfs0:") (bytes "couldn't convert pfs path string") _
              (bench.Table ds) refl at_1)
            (λ s₂ at_2. Reaches-bind _ (format_testpart_lem ds _ at_2) (λ s₃ at_3.
              Reaches-bind _ (mount_testpart_lem ds _ at_3) (λ s₄ at_4.
                Reaches-bind _ (make_testdir_lem _ at_4) (λ s₅ at_5.
                  Reaches-bind _ (check_root_lem fuel _ at_5 h)
                    (λ s₆ at_6. close_lem written_root _ at_6))))))
