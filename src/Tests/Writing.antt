-- ===== src/Tests/Writing.antt =====
-- The test `format_list_partitions_and_write` on a machine that also keeps a directory.
use ps2hdd_rs.Prelude.{
  ◌+◌, ◌<◌, ◌≡◌, refl, ap, List, [], ◌∷◌, ◌++◌, bytes, false, ok, text_eq, pos, arith, length,
  replicate,
}
use ps2hdd_rs.Scenarios.Raw.Writing.{
  entry_names, default_file_path, format_list_partitions_and_write,
}
use ps2hdd_rs.Scenarios.Raw.Writing.Bench.{Bench}
use ps2hdd_rs.Scenarios.Raw.Writing.Laws.{format_list_partitions_and_write-Passes}
use ps2hdd_rs.Std.CString.{read_str}
use ps2hdd_rs.Std.Utf8.{from_utf8}
use ps2hdd_rs.Sys.Bindings.{Dirent}
use ps2hdd_rs.Sys.World.{World}
use ps2hdd_rs.Tests.Machine.{
  machine, append_testdir, root_listing, defaults, added, dot, dot_dot, testdir, session,
  with_entries,
}
use ps2hdd_rs.Tests.Sim.{bindings, image}

bench : Bench machine
unfolding entry_names read_str from_utf8 bytes text_eq
bench = record {
  Made = λ s. Unit;
  Started = λ s. Unit;
  Table = λ ds s. s.table ≡ ds;
  Root = λ ds s. s.root ≡ ds;
  defaults = defaults;
  added = added;
  dot = dot;
  dot_dot = dot_dot;
  testdir = testdir;
  default_shown = λ message. refl;
  added_shown = λ message. refl;
  root_shown = λ message. refl;
  testdir_directory = refl;
  created = λ path s. (record s { file = path }, refl, (record s { file = path }, refl, tt));
  removed = λ path s. refl;
  apa = λ cells s made. (s, refl, tt);
  pfs = λ s started. (s, refl, tt);
  disk_formatted = λ s started. (record s { table = defaults }, refl, refl);
  partition_made = λ s e. (
    3,
    record s { table = s.table ++ added ∷ [] },
    refl,
    (
      record s { table = s.table ++ added ∷ [] },
      refl,
      ap (λ (ds : List (Dirent bindings)). ds ++ added ∷ []) e,
    ),
  );
  table_listed = λ ds s e. (
    record s { entries = [] },
    session append_testdir root_listing (bytes "hdd0:") ds s
        (ap (λ (es : List (Dirent bindings)). (pos 4, with_entries s es)) e),
    e,
  );
  partition_formatted = λ ds s e. (s, refl, e);
  mounted = λ ds s e. (record s { root = dot ∷ dot_dot ∷ []; made = [] }, refl, refl);
  directory_made = λ s e. (
    record s { root = s.root ++ testdir ∷ [] },
    refl,
    ap (λ (ds : List (Dirent bindings)). ds ++ testdir ∷ []) e,
  );
  root_listed = λ ds s e. (
    record s { entries = [] },
    session append_testdir root_listing (bytes "pfs0:/") ds s
        (ap (λ (es : List (Dirent bindings)). (pos 4, with_entries s es)) e),
    e,
  );
  umounted = λ ds s e. refl;
}

abbrev initial : World machine
initial = record {
  is_device_active = false;
  atad_device_path = default_file_path ++ replicate 249 0;
  outside = image;
}

found : read_str initial.atad_device_path ≡ ok default_file_path
unfolding read_str from_utf8 bytes replicate
found = refl

size : length initial.atad_device_path ≡ 256
unfolding bytes replicate
size = refl

enough : length bench.defaults + 1 < 7
unfolding bench
enough = omega arith

format_list_partitions_and_write-Passes_example :
    let (result, w') = format_list_partitions_and_write machine 7 initial in
    (result ≡ ok tt) × (read_str w'.atad_device_path ≡ ok default_file_path)
format_list_partitions_and_write-Passes_example =
    format_list_partitions_and_write-Passes machine bench 7 initial found size enough (omega arith)
