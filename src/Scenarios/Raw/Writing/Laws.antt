-- ===== src/Scenarios/Raw/Writing/Laws.antt =====
-- The second disk, and the whole test on the bench.
use ps2hdd_rs.Prelude.{
  ℕ, suc, ◌+◌, ◌<◌, ◌≡◌, refl, Text, bytes, [], ◌∷◌, ◌++◌, ok, length, text_eq_refl, arith, drop,
}
use ps2hdd_rs.Hdd.Open.Refines.{written}
use ps2hdd_rs.Hdd.Open.Refines.Returns.{IsOpenable, length-written}
use ps2hdd_rs.Scenarios.{assert, expect}
use ps2hdd_rs.Scenarios.Reaches.{Reaches, Reaches-bind}
use ps2hdd_rs.Scenarios.Raw.{util_set_atad_device_path}
use ps2hdd_rs.Scenarios.Raw.Laws.{util_set_atad_device_path_lem}
use ps2hdd_rs.Scenarios.Raw.Writing.{
  default_names, default_file_path, demo_1_path, default_device_path, start_apa, format_disk,
  expect_partitions, second_disk, remove_images, format_list_partitions_and_write,
}
use ps2hdd_rs.Scenarios.Raw.Writing.Bench.{Bench}
use ps2hdd_rs.Scenarios.Raw.Writing.Directory.{write_lem}
use ps2hdd_rs.Scenarios.Raw.Writing.Disk.{
  make_image_lem, start_apa_lem, prepare_lem, format_disk_lem, expect_partitions_lem,
  format_and_list_lem,
}
use ps2hdd_rs.Std.CString.{cstring_new, read_str}
use ps2hdd_rs.Std.CString.Laws.{NoNul-cstring_new, read_str-terminated}
use ps2hdd_rs.Std.Utf8.{from_utf8}
use ps2hdd_rs.Sys.Bindings.{Bindings}
use ps2hdd_rs.Sys.Platform.{Platform}
use ps2hdd_rs.Sys.World.{World, command, ◌>>=◌, ◌>>◌}

demo_1_path-IsOpenable : IsOpenable demo_1_path
unfolding bytes from_utf8 cstring_new
demo_1_path-IsOpenable = record {
  text = refl;
  no_nul = (NoNul-cstring_new demo_1_path refl).1;
  short = omega arith;
}

default_file_path-IsOpenable : IsOpenable default_file_path
unfolding bytes from_utf8 cstring_new
default_file_path-IsOpenable = record {
  text = refl;
  no_nul = (NoNul-cstring_new default_file_path refl).1;
  short = omega arith;
}

module _ {b : Bindings} (p : Platform b) where
  set_1 :
      (w : World p)
      → length w.atad_device_path ≡ 256
      → util_set_atad_device_path p demo_1_path w
        ≡ (ok tt, record w { atad_device_path = written demo_1_path w.atad_device_path })
  unfolding bytes
  set_1 w size =
      util_set_atad_device_path_lem p demo_1_path w demo_1_path-IsOpenable (omega arith) size

  set_default :
      (w : World p)
      → length w.atad_device_path ≡ 256
      → util_set_atad_device_path p default_file_path w
        ≡ (ok tt, record w { atad_device_path = written default_file_path w.atad_device_path })
  unfolding bytes
  set_default w size =
      util_set_atad_device_path_lem p default_file_path w default_file_path-IsOpenable (omega arith)
        size

  default_device_path_lem :
      (w : World p)
      → read_str w.atad_device_path ≡ ok default_file_path
      → default_device_path p w ≡ (ok default_file_path, w)
  unfolding default_device_path assert ◌>>=◌
  default_device_path_lem w found = rw found (rw (text_eq_refl default_file_path))

  module _ (bench : Bench p) where
    remove_images_lem :
        (path : Text) (w : World p) → Reaches (remove_images p path) w tt (λ s. Unit {0})
    unfolding remove_images expect ◌>>=◌
    remove_images_lem path w = record {
      outside = (p.remove_file demo_1_path (p.remove_file path w.outside).1).1;
      reached =
          rw (bench.removed path w.outside)
            (rw (bench.removed demo_1_path (p.remove_file path w.outside).1));
      after = tt;
    }

    second_listed :
        (fuel : ℕ) (w : World p)
        → bench.Made w.outside
        → length bench.defaults + 1 < fuel
        → Reaches
            (start_apa p (bytes "second _init_apa failed")
              >> (format_disk p (bytes "hdd0:") (bytes "second iomanx_format failed")
                  >> (expect_partitions p fuel (bytes "hdd0:") default_names
                      >> command p.atad_close)))
            w
            tt
            (λ s. Unit {0})
    unfolding ◌>>=◌
    second_listed fuel w made h =
        Reaches-bind _ (start_apa_lem bench (bytes "second _init_apa failed") w made) (λ s₁ started.
          Reaches-bind _ (format_disk_lem bench (bytes "second iomanx_format failed") _ started)
            (λ s₂ table.
              Reaches-bind _
                (expect_partitions_lem bench fuel default_names bench.defaults _ table (omega arith)
                  bench.default_shown)
                (λ s₃ table'. record { outside = p.atad_close s₃; reached = refl; after = tt })))

    second_disk_lem :
        (fuel : ℕ) (w : World p)
        → length w.atad_device_path ≡ 256
        → length bench.defaults + 1 < fuel
        → (s' : p.State) × (second_disk p fuel (bytes "hdd0:") w ≡ (
          ok tt,
          record w { atad_device_path = written demo_1_path w.atad_device_path; outside = s' },
        ))
    unfolding second_disk ◌>>=◌
    second_disk_lem fuel w size h =
        let image =
          make_image_lem bench demo_1_path (bytes "couldn't create 1st demo file")
            (bytes "couldn't make 1st demo file the right size") w in
        let w₁ : World p = record w { outside = image.outside } in
        let rest =
          second_listed fuel
            (record w₁ { atad_device_path = written demo_1_path w.atad_device_path }) image.after
            h in
        (rest.outside, rw (image.reached) (rw (set_1 w₁ size) rest.reached))

    -- On a machine that can make the images, whose drivers keep a table of partitions and a
    -- directory, from a world whose array of 256 bytes holds the default path,
    -- `format_list_partitions_and_write` comes to its end with no panic, for more fuel than there
    -- are entries in a listing: the two disks are listed with the partitions that it asks for, and
    -- so is the directory. The array holds the default path again, which the path of the second
    -- image had replaced.
    pub format_list_partitions_and_write-Passes :
        (fuel : ℕ) (w : World p)
        → read_str w.atad_device_path ≡ ok default_file_path
        → length w.atad_device_path ≡ 256
        → length bench.defaults + 1 < fuel
        → 3 < fuel
        → let (result, w') = format_list_partitions_and_write p fuel w in
          (result ≡ ok tt) × (read_str w'.atad_device_path ≡ ok default_file_path)
    unfolding format_list_partitions_and_write cstring_new bytes ◌>>=◌
    format_list_partitions_and_write-Passes fuel w found size h k =
        let ready = prepare_lem bench default_file_path w in
        let w₁ : World p = record w { outside = ready.outside } in
        let listed = format_and_list_lem bench fuel w₁ ready.after h in
        let w₂ : World p = record w { outside = listed.outside } in
        let done = write_lem bench fuel (bench.defaults ++ bench.added ∷ []) w₂ listed.after k in
        let w₃ : World p = record w { outside = done.outside } in
        let (s₄, second) = second_disk_lem fuel w₃ size h in
        let cells = written demo_1_path w.atad_device_path in
        let w₄ : World p = record w { atad_device_path = cells; outside = s₄ } in
        let gone = remove_images_lem default_file_path w₄ in
        let w₅ : World p = record w₄ { outside = gone.outside } in
        let short = demo_1_path-IsOpenable.short in
        let last = set_default w₅ (length-written demo_1_path w.atad_device_path short size) in
        rw (default_device_path_lem w found) (
          rw (ready.reached) (
            rw (listed.reached) (
              rw (done.reached) (
                rw second (
                  rw (gone.reached) (
                    rw last (
                      refl,
                      read_str-terminated default_file_path
                          (drop (suc (length default_file_path)) cells)
                          default_file_path-IsOpenable.no_nul default_file_path-IsOpenable.text,
                    )))))))
