-- ===== src/Tests/Folders.antt =====
-- The scenarios on directories, on a machine that keeps the reference itself.
use ps2hdd_rs.Prelude.{
  ℕ, zero, suc, ℤ, pos, negsuc, ◌≡◌, refl, ap, Text, bytes, List, [], ◌∷◌, ◌++◌, Bool, true, false,
  ◌&&◌, text_eq, if◌then◌else◌, ok, drop, length, arith, replicate,
}
use ps2hdd_rs.Scenarios.Directories.{pfs_mount_create_dir_all}
use ps2hdd_rs.Scenarios.Directories.Folder.{
  Folder, make_directory, children, last_part, is_plain, all_plain,
}
use ps2hdd_rs.Scenarios.Directories.Laws.{pfs_mount_create_dir_all-Passes}
use ps2hdd_rs.Scenarios.Host.{Passes}
use ps2hdd_rs.Scenarios.Raw.Writing.{entry_names}
use ps2hdd_rs.Std.CString.{NoNul}
use ps2hdd_rs.Std.CString.Laws.{read_str-terminated}
use ps2hdd_rs.Std.Utf8.{validate, advance, from_utf8_lossy, IsUtf8}
use ps2hdd_rs.Std.Utf8.Laws.{IsAscii, IsAscii-IsUtf8, from_utf8_lossy-IsUtf8}
use ps2hdd_rs.Sys.Bindings.{Dirent}
use ps2hdd_rs.Sys.Platform.{Platform}
use ps2hdd_rs.Sys.World.{World}
use ps2hdd_rs.Tests.Machine.{variant, session, with_entries, dot, dot_dot}
use ps2hdd_rs.Tests.Scenes.{host, drive}
use ps2hdd_rs.Tests.Sim.{bindings, dirent, Image, image}

-- The path stands behind `pfs0:/`, and behind `pfs0://` in a listing.
abbrev mkdir : Text → ℕ → Image → ℤ × Image
mkdir path mode s =
    let (result, dirs) = make_directory (drop 6 path) s.made in (result, record s { made = dirs })

abbrev entries_of : List Text → List (Dirent bindings)
entries_of [] = []
entries_of (name ∷ names) = dirent name 0x11ff 512 ∷ entries_of names

abbrev listing : Text → Image → List (Dirent bindings)
listing path s = dot ∷ dot_dot ∷ entries_of (children (drop 7 path) s.made)

abbrev library : Platform bindings
library = variant mkdir listing

plain-bytes : (path : Text) → is_plain path ≡ true → IsAscii path × NoNul path
unfolding is_plain
plain-bytes [] h = (tt, tt)
plain-bytes (c ∷ path) h =
    let rest : is_plain path ≡ true = ground arith in
    let (ascii, no_nul) = plain-bytes path rest in
    (((ground arith), ascii), ((ground arith), no_nul))

is_plain-IsUtf8 : (path : Text) → is_plain path ≡ true → IsUtf8 path
is_plain-IsUtf8 path h = IsAscii-IsUtf8 path (plain-bytes path h).0

plain-lossy : (path : Text) → is_plain path ≡ true → from_utf8_lossy path ≡ path
plain-lossy path h = from_utf8_lossy-IsUtf8 path (is_plain-IsUtf8 path h)

plain-drop : (n : ℕ) (path : Text) → is_plain path ≡ true → is_plain (drop n path) ≡ true
unfolding is_plain
plain-drop zero path h = h
plain-drop (suc n) [] h = refl
plain-drop (suc n) (c ∷ path) h = plain-drop n path (ground arith)

last_part-plain :
    (path child : Text) → is_plain child ≡ true → is_plain (last_part path child) ≡ true
last_part-plain [] child h = h
last_part-plain (c ∷ path) child h = plain-drop (suc (length (c ∷ path))) child h

kept-plain :
    (kept : Bool) (name : Text) (names : List Text)
    → is_plain name ≡ true
    → all_plain names ≡ true
    → all_plain (if kept then name ∷ names else names) ≡ true
unfolding all_plain
kept-plain true name names h k = rw (h, k)
kept-plain false name names h k = k

all_plain-children :
    (path : Text) (dirs : List Text) → all_plain dirs ≡ true → all_plain (children path dirs) ≡ true
unfolding all_plain children
all_plain-children path [] h = refl
all_plain-children path (dir ∷ dirs) h =
    kept-plain _ (last_part path dir) (children path dirs) (last_part-plain path dir (ground arith))
      (all_plain-children path dirs (ground arith))

entry_names-entries_of :
    (message : Text) (names : List Text)
    → all_plain names ≡ true
    → entry_names message (entries_of names) ≡ ok names
unfolding all_plain entry_names
entry_names-entries_of message [] h = refl
entry_names-entries_of message (name ∷ names) h =
    let fine : is_plain name ≡ true = ground arith in
    let (ascii, no_nul) = plain-bytes name fine in
    rw (read_str-terminated name [] no_nul (IsAscii-IsUtf8 name ascii))
      (rw (entry_names-entries_of message names (ground arith)))

refused_same :
    (path : Text) (dirs : List Text)
    → (make_directory path dirs).0 ≡ negsuc 1
    → (make_directory path dirs).1 ≡ dirs
unfolding make_directory
refused_same path dirs h = ground arith

dots-plain :
    (path : Text) (dirs : List Text)
    → (is_plain path && all_plain dirs) ≡ true
    → all_plain (bytes "." ∷ bytes ".." ∷ children path dirs) ≡ true
unfolding all_plain bytes
dots-plain path dirs h = all_plain-children path dirs (ground arith)

folder : Folder library (host mkdir listing) (drive mkdir listing)
unfolding bytes validate advance host drive text_eq
folder = record {
  errors = record { is_text = λ x. refl; no_entry = refl };
  Dirs = λ dirs s. (s.file ≡ bytes "hdd.img") × (s.made ≡ dirs);
  Dirs-There = λ dirs s h. h.0;
  mounted = λ ds s h. (record s { root = dot ∷ dot_dot ∷ []; made = [] }, refl, (h.0, refl));
  makes = λ path dirs s h plain. (
    record s { made = (make_directory path dirs).1 },
    rw (plain-lossy path plain, h.1) refl,
    (h.0, refl),
  );
  unmade = λ path dirs s h plain missing.
      rw (plain-lossy path plain, h.1, missing, refused_same path dirs missing, ← h.1) refl;
  listed = λ path dirs s h plain there. (
    dot ∷ dot_dot ∷ entries_of (children path dirs),
    record s { entries = [] },
    session mkdir listing (bytes "pfs0://" ++ path)
        (dot ∷ dot_dot ∷ entries_of (children path dirs)) s
        (ap
          (λ (es : List Text).
            (pos 4, with_entries s (dot ∷ dot_dot ∷ entries_of (children path es))))
          h.1),
    λ message.
        entry_names-entries_of message (bytes "." ∷ bytes ".." ∷ children path dirs)
          (dots-plain path dirs plain),
    h,
  );
}

abbrev idle : World library
idle = record { is_device_active = false; atad_device_path = replicate 256 0; outside = image }

cells : length idle.atad_device_path ≡ 256
unfolding replicate
cells = refl

pfs_mount_create_dir_all-Passes_example : Passes library (pfs_mount_create_dir_all library 4) idle
pfs_mount_create_dir_all-Passes_example =
    pfs_mount_create_dir_all-Passes library (host mkdir listing) (drive mkdir listing) folder 2 idle
      refl cells (omega arith)
