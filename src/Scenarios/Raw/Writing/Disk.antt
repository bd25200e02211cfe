-- ===== src/Scenarios/Raw/Writing/Disk.antt =====
-- The phases that format the disk and list its partitions, on the bench.
use ps2hdd_rs.Prelude.{
  ℕ, ◌+◌, ◌<◌, ◌≡◌, refl, Text, bytes, List, [], ◌∷◌, ◌++◌, true, ok, length, length-append,
  text_eq_refl, arith,
}
use ps2hdd_rs.ReadDir.Laws.{Session}
use ps2hdd_rs.Scenarios.{assert, expect}
use ps2hdd_rs.Scenarios.Reaches.{Reaches, Reaches-bind}
use ps2hdd_rs.Scenarios.Raw.{check_result}
use ps2hdd_rs.Scenarios.Raw.Laws.{util_iomanx_dopen_dread-Session}
use ps2hdd_rs.Scenarios.Raw.Writing.{
  texts_eq, entry_names, default_names, make_image, start_apa, start_pfs, format_disk,
  make_testpart, check_listing, expect_partitions, prepare, format_and_list,
}
use ps2hdd_rs.Scenarios.Raw.Writing.Bench.{Bench}
use ps2hdd_rs.Std.CString.{cstring_new}
use ps2hdd_rs.Sys.Bindings.{Bindings, Dirent}
use ps2hdd_rs.Sys.Platform.{Platform}
use ps2hdd_rs.Sys.World.{World, ◌>>=◌}

pub texts_eq_refl : (ss : List Text) → texts_eq ss ss ≡ true
unfolding texts_eq
texts_eq_refl [] = refl
texts_eq_refl (s ∷ ss) = rw (text_eq_refl s) (texts_eq_refl ss)

module _ {b : Bindings} {p : Platform b} (bench : Bench p) where
  pub make_image_lem :
      (path no_file no_size : Text) (w : World p)
      → Reaches (make_image p path no_file no_size) w tt bench.Made
  unfolding make_image expect ◌>>=◌
  make_image_lem path no_file no_size w =
      let (s₁, creates, (s₂, extends, made)) = bench.created path w.outside in
      record { outside = s₂; reached = rw creates (rw extends); after = made }

  pub start_apa_lem :
      (message : Text) (w : World p)
      → bench.Made w.outside
      → Reaches (start_apa p message) w tt bench.Started
  unfolding start_apa assert ◌>>=◌
  start_apa_lem message w made =
      let (s, e, started) = bench.apa w.atad_device_path w.outside made in
      record { outside = s; reached = rw e; after = started }

  start_pfs_lem : (w : World p) → bench.Started w.outside → Reaches (start_pfs p) w tt bench.Started
  unfolding start_pfs assert ◌>>=◌
  start_pfs_lem w started =
      let (s, e, after) = bench.pfs w.outside started in
      record { outside = s; reached = rw e; after = after }

  pub prepare_lem : (path : Text) (w : World p) → Reaches (prepare p path) w tt bench.Started
  unfolding prepare
  prepare_lem path w =
      Reaches-bind _
        (make_image_lem path (bytes "couldn't create demo file")
          (bytes "couldn't make demo file the right size") w)
        (λ s made.
          Reaches-bind _ (start_apa_lem (bytes "_init_apa failed") _ made)
            (λ s' started. start_pfs_lem _ started))

  pub format_disk_lem :
      (message : Text) (w : World p)
      → bench.Started w.outside
      → Reaches (format_disk p (bytes "hdd0:") message) w tt (bench.Table bench.defaults)
  unfolding format_disk assert ◌>>=◌
  format_disk_lem message w started =
      let (s, e, table) = bench.disk_formatted w.outside started in
      record { outside = s; reached = rw e; after = table }

  make_testpart_lem :
      (w : World p)
      → bench.Table bench.defaults w.outside
      → Reaches (make_testpart p) w tt (bench.Table (bench.defaults ++ bench.added ∷ []))
  unfolding make_testpart check_result assert cstring_new bytes ◌>>=◌
  make_testpart_lem w table =
      let (handle, s₁, opens, (s₂, closes, table')) = bench.partition_made w.outside table in
      record { outside = s₂; reached = rw opens (rw closes); after = table' }

  pub check_listing_lem :
      (fuel : ℕ) (path bad_text message : Text) (names : List Text) (ds : List (Dirent b))
      (w : World p) (s' : p.State) (After : p.State → Type 0)
      → Session p path ds w.outside s'
      → After s'
      → length ds < fuel
      → entry_names bad_text ds ≡ ok names
      → Reaches (check_listing p fuel path bad_text names message) w ds After
  unfolding check_listing assert ◌>>=◌
  check_listing_lem fuel path bad_text message names ds w s' After session after h shown = record {
    outside = s';
    reached =
        rw (util_iomanx_dopen_dread-Session p fuel path ds w s' session h)
          (rw shown (rw (texts_eq_refl names)));
    after = after;
  }

  pub expect_partitions_lem :
      (fuel : ℕ) (names : List Text) (ds : List (Dirent b)) (w : World p)
      → bench.Table ds w.outside
      → length ds < fuel
      → ((message : Text) → entry_names message ds ≡ ok names)
      → Reaches (expect_partitions p fuel (bytes "hdd0:") names) w tt (bench.Table ds)
  unfolding expect_partitions ◌>>=◌
  expect_partitions_lem fuel names ds w table h shown =
      let (s', session, table') = bench.table_listed ds w.outside table in
      Reaches-bind _
        (check_listing_lem fuel (bytes "hdd0:") (bytes "could not convert partition entry name")
          (bytes "unexpected partition list") names ds w s' (bench.Table ds) session table' h
          (shown (bytes "could not convert partition entry name")))
        (λ s kept. record { outside = s; reached = refl; after = kept })

  pub format_and_list_lem :
      (fuel : ℕ) (w : World p)
      → bench.Started w.outside
      → length bench.defaults + 1 < fuel
      → Reaches
          (format_and_list p fuel (bytes "hdd0:"))
          w
          tt
          (bench.Table (bench.defaults ++ bench.added ∷ []))
  unfolding format_and_list
  format_and_list_lem fuel w started h =
      Reaches-bind _ (format_disk_lem (bytes "iomanx_format failed") w started) (λ s table.
        Reaches-bind _ (make_testpart_lem _ table) (λ s' table'.
          expect_partitions_lem fuel (default_names ++ bytes "TESTPART" ∷ []) _ _ table'
            (omega (arith, length-append bench.defaults (bench.added ∷ []))) bench.added_shown))
