-- ===== src/Tests/Scenes.antt =====
-- The scenarios of the test modules on the machine.
use ps2hdd_rs.Prelude.{
  Text, ℕ, ℤ, ◌+◌, ◌<◌, ◌≡◌, refl, ap, List, [], ◌∷◌, ◌++◌, bytes, text_eq, pos, arith, length,
  replicate, ◌++◌,
}
use ps2hdd_rs.Fs.{part_entry, kind_of_mode}
use ps2hdd_rs.Hdd.Open.Refines.Returns.{IsOpenable}
use ps2hdd_rs.PartitionKind.{kind_of_number, discriminant}
use ps2hdd_rs.Scenarios.Disks.{initializes_disks_creates_and_formats_partitions}
use ps2hdd_rs.Scenarios.Disks.Drive.{Drive}
use ps2hdd_rs.Scenarios.Disks.Laws.{initializes_disks_creates_and_formats_partitions-Passes}
use ps2hdd_rs.Scenarios.Host.{Host, Passes}
use ps2hdd_rs.Scenarios.Instances.{only_one_instance_allowed}
use ps2hdd_rs.Scenarios.Instances.Laws.{only_one_instance_allowed-Passes}
use ps2hdd_rs.Std.CString.{cstring_new, read_str}
use ps2hdd_rs.Std.CString.Laws.{NoNul-cstring_new}
use ps2hdd_rs.Std.Utf8.{from_utf8}
use ps2hdd_rs.Sys.Bindings.{Dirent}
use ps2hdd_rs.Tests.Machine.{
  machine, variant, variant-Tame, append_testdir, root_listing, defaults, added, idle, session,
  with_entries,
}
use ps2hdd_rs.Tests.Sim.{bindings, Image}

pub openable : IsOpenable (bytes "hdd.img")
unfolding bytes from_utf8 cstring_new
openable = record {
  text = refl;
  no_nul = (NoNul-cstring_new (bytes "hdd.img") refl).1;
  short = omega arith;
}

module _ (mkdir : Text → ℕ → Image → ℤ × Image)
    (listing : Text → Image → List (Dirent bindings)) where
  unfoldable pub host : Host (variant mkdir listing) (bytes "hdd.img")
  unfolding text_eq bytes
  host = record {
    tame = variant-Tame mkdir listing;
    openable = openable;
    There = λ s. s.file ≡ bytes "hdd.img";
    created = λ s. refl;
    extended = λ size s. (refl, refl);
    is_there = λ s e. rw e;
    apa = λ cells s e. (refl, e);
    pfs = λ s e. (refl, e);
    closed = λ s e. e;
    removed = λ s e. refl;
  }

  unfoldable pub drive : Drive (variant mkdir listing) host
  unfolding bytes part_entry kind_of_mode kind_of_number discriminant read_str from_utf8 text_eq
      host
  drive = record {
    defaults = defaults;
    added = added;
    shown = refl;
    added_shown = refl;
    Holds = λ ds s. (s.file ≡ bytes "hdd.img") × (s.table ≡ ds);
    Holds-There = λ ds s h. h.0;
    disk_formatted = λ s e. (record s { table = defaults }, refl, (e, refl));
    partition_made = λ ds s h. (
      3,
      record s { table = s.table ++ added ∷ [] },
      record s { table = s.table ++ added ∷ [] },
      refl,
      refl,
      (h.0, ap (λ (es : List (Dirent bindings)). es ++ added ∷ []) h.1),
    );
    partition_formatted = λ ds s h. (s, refl, h);
    listed = λ ds s h. (
      record s { entries = [] },
      session mkdir listing (bytes "hdd0:") ds s
          (ap (λ (es : List (Dirent bindings)). (pos 4, with_entries s es)) h.1),
      h,
    );
  }

abbrev simple_host : Host machine (bytes "hdd.img")
simple_host = host append_testdir root_listing

abbrev simple_drive : Drive machine simple_host
simple_drive = drive append_testdir root_listing

enough : length simple_drive.defaults + 1 < 7
unfolding drive
enough = omega arith

cells : length idle.atad_device_path ≡ 256
unfolding replicate
cells = refl

initializes_disks_creates_and_formats_partitions-Passes_example :
    Passes machine (initializes_disks_creates_and_formats_partitions machine 7) idle
initializes_disks_creates_and_formats_partitions-Passes_example =
    initializes_disks_creates_and_formats_partitions-Passes machine simple_host simple_drive 7 idle
      refl cells enough

only_one_instance_allowed-Passes_example :
    Passes machine (only_one_instance_allowed machine (λ message. message)) idle
only_one_instance_allowed-Passes_example =
    only_one_instance_allowed-Passes machine simple_host (λ message. message) idle refl cells
