-- ===== src/Tests/Sim.antt =====
-- A concrete driver: one disk image, a list of entries that every directory serves, and the
-- directories that were made.
use ps2hdd_rs.Prelude.{
  ℕ, ℤ, pos, negsuc, Text, bytes, List, [], ◌∷◌, ◌++◌, Bool, true, false, if◌then◌else◌, text_eq,
  ◌==◌, ◌&&◌, Option, none, some, replicate,
}
use ps2hdd_rs.Std.Format.{decimal}
use ps2hdd_rs.Std.FilePath.{parent}
use ps2hdd_rs.Sys.Bindings.{Bindings, Dirent}
use ps2hdd_rs.Sys.Platform.{Platform}
use ps2hdd_rs.Sys.World.{World}

abbrev pub stat_eq : ℕ × ℕ → ℕ × ℕ → Bool
stat_eq (m, n) (m', n') = (m == m') && (n == n')

abbrev pub bindings : Bindings
bindings = record {
  Stat = ℕ × ℕ;
  mode = λ s. s.0;
  size = λ s. s.1;
  Unknown = ℕ;
  stat_eq = stat_eq;
  unknown_eq = λ x y. x == y;
  stat_debug = λ s. decimal s.0;
  zero_stat = (0, 0);
  zero_unknown = 0;
  fio_s_ifmt = 0xf000;
  fio_s_ifdir = 0x1000;
  fio_s_ifreg = 0x2000;
  fio_s_iflnk = 0x4000;
  iomanx_o_rdwr = 0x0003;
  iomanx_o_creat = 0x0200;
}

abbrev pub dirent : Text → ℕ → ℕ → Dirent bindings
dirent name mode size = record { stat = (mode, size); name = name ++ 0 ∷ []; unknown = 0 }

pub record Image : Type 0 where
  pub file : Text
  pub entries : List (Dirent bindings)
  pub made : List Text
  -- The partitions of the disk.
  pub table : List (Dirent bindings)
  -- The root of the partition that is mounted.
  pub root : List (Dirent bindings)

abbrev pub is_made : Text → List Text → Bool
is_made path [] = false
is_made path (d ∷ ds) = if text_eq path d then true else is_made path ds

-- The root of the device needs no parent, and is that of paths with one component.
abbrev pub parent_made : Option Text → List Text → Bool
parent_made none ds = true
parent_made (some []) ds = true
parent_made (some up) ds =
    if text_eq up (bytes "pfs0:") then is_made (bytes "pfs0:/") ds else is_made up ds

abbrev mkdir : Text → ℕ → Image → ℤ × Image
mkdir path mode s =
    if parent_made (parent path) s.made
    then (if is_made path s.made
        then (negsuc 16, s)
        else (pos 0, record s { made = path ∷ s.made }))
    else (negsuc 1, s)

abbrev dread_from : Dirent bindings → Image → List (Dirent bindings) → (ℤ × Dirent bindings) × Image
dread_from d s [] = ((pos 0, d), s)
dread_from d s (e ∷ es) = ((pos 1, e), record s { entries = es })

-- No file has an empty name.
abbrev is_named : Text → Image → Bool
is_named [] s = false
is_named (c ∷ path) s = text_eq (c ∷ path) s.file

abbrev pub sim : Platform bindings
sim = record {
  State = Image;
  init_apa = λ cells s. (pos 0, s);
  init_pfs = λ s. (pos 0, s);
  atad_close = λ s. s;
  iomanx_format = λ device partition arguments n s. (pos 0, s);
  iomanx_open = λ path flags s. (pos 3, s);
  iomanx_close = λ handle s. (pos 0, s);
  iomanx_dopen = λ path s. (pos 4, s);
  iomanx_dread = λ handle d s. dread_from d s s.entries;
  iomanx_mkdir = mkdir;
  iomanx_rmdir = λ path s. (pos 0, s);
  iomanx_mount = λ mount_point device flags s. (pos 0, s);
  iomanx_umount = λ mount_point s. (pos 0, s);
  strerror = λ n. bytes "No such file or directory";
  is_file = is_named;
  is_dir = λ path s. false;
  file_create = λ path s. (none, record s { file = path });
  set_len = λ path n s. (none, s);
  remove_file = λ path s. (none, record s { file = [] });
  print_line = λ line s. s;
  overflow_checks = true;
}

abbrev pub partitions : List (Dirent bindings)
partitions = dirent (bytes "__mbr") 1 262144 ∷ dirent (bytes "+OPL") 256 524288 ∷ []

abbrev pub image : Image
image = record {
  file = bytes "disk.img";
  entries = partitions;
  made = bytes "pfs0:/" ∷ [];
  table = [];
  root = [];
}

abbrev pub world : World sim
world = record { is_device_active = false; atad_device_path = replicate 256 0; outside = image }
