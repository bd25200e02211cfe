-- ===== src/Tests/Machine.antt =====
-- A machine with a disk: formatting makes the default partitions, opening a request adds one, and a
-- listing serves the table, or the root of the partition, to its end.
use ps2hdd_rs.Prelude.{
  ℕ, ℤ, ◌≡◌, refl, List, [], ◌∷◌, ◌++◌, Text, bytes, Option, none, some, false, text_eq, pos,
  replicate, if◌then◌else◌,
}
use ps2hdd_rs.ReadDir.{zeroed}
use ps2hdd_rs.ReadDir.Laws.{Serves, Session}
use ps2hdd_rs.Sys.Bindings.{Dirent}
use ps2hdd_rs.Sys.Platform.{Platform}
use ps2hdd_rs.Hdd.Open.Refines.Returns.{Tame}
use ps2hdd_rs.Sys.World.{World}
use ps2hdd_rs.Tests.Sim.{sim, Image, image, bindings, dirent}

-- 128 mebibytes are 262144 sectors.
abbrev pub defaults : List (Dirent bindings)
defaults =
    dirent (bytes "__mbr") 1 262144
    ∷ dirent (bytes "__net") 256 262144
    ∷ dirent (bytes "__system") 256 262144
    ∷ dirent (bytes "__sysconf") 256 262144
    ∷ dirent (bytes "__common") 256 262144
    ∷ []

abbrev pub added : Dirent bindings
added = dirent (bytes "TESTPART") 256 262144

abbrev pub dot : Dirent bindings
dot = dirent (bytes ".") 0x11ff 512

abbrev pub dot_dot : Dirent bindings
dot_dot = dirent (bytes "..") 0x11ff 512

abbrev pub testdir : Dirent bindings
testdir = dirent (bytes "testdir") 0x11ff 512

-- Only a disk is formatted with no partition named.
abbrev format : Option Text → Image → Image
format none s = record s { table = defaults }
format (some partition) s = s

-- A machine with this `mkdir`, and these entries in the directories of its partition.
abbrev pub variant :
    (Text → ℕ → Image → ℤ × Image) → (Text → Image → List (Dirent bindings)) → Platform bindings
variant mkdir listing = record sim {
  iomanx_format = λ device partition arguments n s. (pos 0, format partition s);
  iomanx_open = λ path flags s. (pos 3, record s { table = s.table ++ added ∷ [] });
  iomanx_dopen = λ path s. (
    pos 4,
    record s { entries = if text_eq path (bytes "hdd0:") then s.table else listing path s },
  );
  iomanx_mount =
      λ mount_point device flags s. (pos 0, record s { root = dot ∷ dot_dot ∷ []; made = [] });
  iomanx_mkdir = mkdir;
}

abbrev pub append_testdir : Text → ℕ → Image → ℤ × Image
append_testdir path mode s = (pos 0, record s { root = s.root ++ testdir ∷ [] })

abbrev pub root_listing : Text → Image → List (Dirent bindings)
root_listing path s = s.root

-- One directory.
abbrev pub machine : Platform bindings
machine = variant append_testdir root_listing

-- One image that is always there.
abbrev pub kiosk : Platform bindings
kiosk = record sim { is_file = λ path s. text_eq path (bytes "disk.img") }

abbrev pub idle : World machine
idle = record { is_device_active = false; atad_device_path = replicate 256 0; outside = image }

pub kiosk-Tame : Tame kiosk
unfolding bytes text_eq
kiosk-Tame = record { apa = λ cells s. refl; pfs = λ s. refl; unnamed = λ s. refl }

abbrev pub last_of : Dirent bindings → List (Dirent bindings) → Dirent bindings
last_of t [] = t
last_of t (d ∷ ds) = last_of d ds

abbrev pub with_entries : Image → List (Dirent bindings) → Image
with_entries s ds = record s { entries = ds }

module _ (mkdir : Text → ℕ → Image → ℤ × Image)
    (listing : Text → Image → List (Dirent bindings)) where
  pub variant-Tame : Tame (variant mkdir listing)
  variant-Tame = record { apa = λ cells s. refl; pfs = λ s. refl; unnamed = λ s. refl }

  served :
      (t : Dirent bindings) (s : Image) (ds : List (Dirent bindings))
      → Serves
          (variant mkdir listing)
          (pos 4)
          t
          (record s { entries = ds })
          ds
          (pos 0)
          (last_of t ds)
          (record s { entries = [] })
  served t s [] = (refl, refl)
  served t s (d ∷ ds) = (pos 1, record s { entries = ds }, refl, refl, served d s ds)

  pub session :
      (path : Text) (ds : List (Dirent bindings)) (s : Image)
      → (variant mkdir listing).iomanx_dopen path s ≡ (pos 4, record s { entries = ds })
      → Session (variant mkdir listing) path ds s (record s { entries = [] })
  session path ds s e = record {
    handle = 4;
    t' = last_of (zeroed bindings) ds;
    s₁ = record s { entries = ds };
    s₂ = record s { entries = [] };
    opens = e;
    serves = served (zeroed bindings) s ds;
    closes = refl;
  }
