-- ===== src/Scenarios/Directories/Folder.antt =====
-- A reference for the directories of a partition, as a list of the paths that are there, and what
-- the scenarios ask of a driver that implements it.
use ps2hdd_rs.Prelude.{
  suc, ℤ, pos, negsuc, ◌≡◌, Text, bytes, List, [], ◌∷◌, ◌++◌, Bool, true, false, if◌then◌else◌,
  text_eq, ltb, ◌&&◌, Option, none, some, ok, length, drop,
}
use ps2hdd_rs.Driver.{on_device}
use ps2hdd_rs.Driver.Attempt.{device_path}
use ps2hdd_rs.Driver.Missing.{StandardErrors}
use ps2hdd_rs.ReadDir.Laws.{Session}
use ps2hdd_rs.Scenarios.{demo_file_path}
use ps2hdd_rs.Scenarios.Disks.Drive.{Drive}
use ps2hdd_rs.Scenarios.Host.{Host}
use ps2hdd_rs.Scenarios.Raw.Writing.{entry_names}
use ps2hdd_rs.Scenarios.Raw.Writing.Bench.{Goes}
use ps2hdd_rs.Std.FilePath.{parent}
use ps2hdd_rs.Sys.Bindings.{Bindings, Dirent}
use ps2hdd_rs.Sys.Platform.{Platform}

abbrev pub mem : Text → List Text → Bool
mem path [] = false
mem path (dir ∷ dirs) = if text_eq path dir then true else mem path dirs

-- The root is always there.
abbrev pub is_there : Text → List Text → Bool
is_there [] dirs = true
is_there (c ∷ path) dirs = mem (c ∷ path) dirs

abbrev above_there : Option Text → List Text → Bool
above_there none dirs = false
above_there (some up) dirs = is_there up dirs

-- `EEXIST`, `ENOENT`, or a new directory.
unfoldable pub make_directory : Text → List Text → ℤ × List Text
make_directory path dirs =
    if is_there path dirs
    then (negsuc 16, dirs)
    else if above_there (parent path) dirs
    then (pos 0, path ∷ dirs)
    else (negsuc 1, dirs)

abbrev is_under : Text → Option Text → Bool
is_under path none = false
is_under path (some up) = text_eq path up

-- The part of a path behind its directory and the `/` there.
abbrev pub last_part : Text → Text → Text
last_part [] child = child
last_part (c ∷ path) child = drop (suc (length (c ∷ path))) child

-- The names in a directory, the one that was made last in front.
unfoldable pub children : Text → List Text → List Text
children path [] = []
children path (dir ∷ dirs) =
    let rest = children path dirs in
    if is_under path (parent dir) then last_part path dir ∷ rest else rest

-- Bytes of ASCII other than NUL.
unfoldable pub is_plain : Text → Bool
is_plain [] = true
is_plain (c ∷ path) = ltb 0 c && ltb c 128 && is_plain path

unfoldable pub all_plain : List Text → Bool
unfolding is_plain
all_plain [] = true
all_plain (dir ∷ dirs) = is_plain dir && all_plain dirs

-- `Dirs` says which directories a mounted partition has.
pub record Folder {b : Bindings} (p : Platform b) (host : Host p (demo_file_path p))
    (drive : Drive p host) : Type 1 where
  pub errors : StandardErrors p
  pub Dirs : List Text → p.State → Type 0
  pub Dirs-There : (dirs : List Text) (s : p.State) → Dirs dirs s → host.There s
  -- A partition that was formatted is empty.
  pub mounted :
      (ds : List (Dirent b)) (s : p.State)
      → drive.Holds ds s
      → Goes (p.iomanx_mount (bytes "pfs0:") (bytes "hdd0:TESTPART") (pos 0)) s (pos 0) (Dirs [])
  pub makes :
      (path : Text) (dirs : List Text) (s : p.State)
      → Dirs dirs s
      → is_plain path ≡ true
      → Goes
          (p.iomanx_mkdir (device_path (bytes "pfs0:") path) 0o777)
          s
          (make_directory path dirs).0
          (Dirs (make_directory path dirs).1)
  pub unmade :
      (path : Text) (dirs : List Text) (s : p.State)
      → Dirs dirs s
      → is_plain path ≡ true
      → (make_directory path dirs).0 ≡ negsuc 1
      → p.iomanx_mkdir (device_path (bytes "pfs0:") path) 0o777 s ≡ (negsuc 1, s)
  -- A path may have `/` in front.
  pub listed :
      (path : Text) (dirs : List Text) (s : p.State)
      → Dirs dirs s
      → (is_plain path && all_plain dirs) ≡ true
      → is_there path dirs ≡ true
      → (ds : List (Dirent b)) × (s' : p.State) × Session p
          (on_device (bytes "pfs0:") (bytes "/" ++ path))
          ds
          s
          s'
        × ((message : Text)
            → entry_names message ds ≡ ok (bytes "." ∷ bytes ".." ∷ children path dirs))
        × Dirs dirs s'
