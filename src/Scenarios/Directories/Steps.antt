-- ===== src/Scenarios/Directories/Steps.antt =====
-- The names of a listing, and the steps of the scenarios on a folder.
pub mod Making
use ps2hdd_rs.Prelude.{
  ℕ, suc, ◌<◌, ◌≡◌, refl, sym, ap, ◌∙◌, ℤ, pos, negsuc, Text, bytes, List, [], ◌∷◌, ◌++◌, Bool,
  true, false, if◌then◌else◌, ◌&&◌, Outcome, ok, err, panic, undefined, out_of_fuel, ◌>>?◌,
  >>?-eq-ok, length, Bool-cases, inl, inr, arith, text_eq, none, some,
}
use ps2hdd_rs.Driver.{Pfs, pfs_driver, on_device, list_dir}
use ps2hdd_rs.Driver.Laws.{is_dots, listed_entries, list_dir-listed_entries}
use ps2hdd_rs.Fs.{DirEntry, file_name}
use ps2hdd_rs.ReadDir.Laws.{Session}
use ps2hdd_rs.Scenarios.{assert, demo_file_path}
use ps2hdd_rs.Scenarios.Directories.{get_directory_entry_names, check_names}
use ps2hdd_rs.Scenarios.Directories.Folder.{Folder, is_there, is_plain, all_plain, children}
use ps2hdd_rs.Scenarios.Disks.Drive.{Drive}
use ps2hdd_rs.Scenarios.Host.{Host}
use ps2hdd_rs.Scenarios.Raw.{expected}
use ps2hdd_rs.Scenarios.Raw.Writing.{entry_names, texts_eq}
use ps2hdd_rs.Scenarios.Raw.Writing.Disk.{texts_eq_refl}
use ps2hdd_rs.Scenarios.Reaches.{Reaches}
use ps2hdd_rs.Std.CString.{NoNul, read_str, from_ptr}
use ps2hdd_rs.Std.Utf8.{from_utf8}
use ps2hdd_rs.Sys.Bindings.{Bindings, Dirent}
use ps2hdd_rs.Sys.Platform.{Platform}
use ps2hdd_rs.Sys.World.{World, attempt, ◌>>=◌}

-- What `list_dir` keeps of names.
abbrev pub shown_names : List Text → List Text
shown_names [] = []
shown_names (name ∷ names) =
    let rest = shown_names names in if is_dots name then rest else name ∷ rest

expected-ok {ℓ} :
    {A : Type ℓ} (message : Text) (r : Outcome A) {a : A} → expected message r ≡ ok a → r ≡ ok a
expected-ok message (ok a) h = h
expected-ok message (err e) h = absurd (cc)
expected-ok message (panic e) h = absurd (cc)
expected-ok message undefined h = absurd (cc)
expected-ok message out_of_fuel h = absurd (cc)

ok-injective {ℓ} : {A : Type ℓ} {a c : A} → ok a ≡ ok c → a ≡ c
ok-injective h = cc

module _ {b : Bindings} where
  read_name :
      (root : Text) (d : Dirent b) (es : List (DirEntry b)) (name : Text) (names : List Text)
      → read_str d.name ≡ ok name
      → get_directory_entry_names es ≡ ok names
      → get_directory_entry_names (record { entry = d; root = root } ∷ es) ≡ ok (name ∷ names)
  unfolding get_directory_entry_names file_name read_str
  read_name root d es name names found rest =
      let (cells, whole, text) = >>?-eq-ok (from_ptr d.name) from_utf8 found in
      rw whole (rw text (rw rest))

  -- The names of the entries that `list_dir` keeps.
  entry_names-listed :
      (root message : Text) (ds : List (Dirent b)) (names : List Text)
      → entry_names message ds ≡ ok names
      → (length ds ≡ length names)
        × (es : List (DirEntry b)) × (listed_entries root ds ≡ ok es)
        × (get_directory_entry_names es ≡ ok (shown_names names))
  unfolding entry_names get_directory_entry_names
  entry_names-listed root message [] names h =
      let empty : names ≡ [] = sym (ok-injective h) in rw empty (refl, [], refl, refl)
  entry_names-listed root message (d ∷ ds) names h =
      let (name, first, more) = >>?-eq-ok (expected message (read_str d.name)) _ h in
      let (rest, others, whole) = >>?-eq-ok (entry_names message ds) _ more in
      let found = expected-ok message (read_str d.name) first in
      let (same, es, listed, shown) = entry_names-listed root message ds rest others in
      let full : name ∷ rest ≡ names = ok-injective whole in
      rw (← full) (elim (Bool-cases (is_dots name)) [
        | inr kept ↦
            rw (found, listed, kept)
              (
                ap suc same,
                record { entry = d; root = root } ∷ es,
                refl,
                read_name root d es name (shown_names rest) found shown,
              )
        | inl left ↦ rw (found, listed, left) (ap suc same, es, refl, shown)
      ])

module _ {b : Bindings} {p : Platform b} {host : Host p (demo_file_path p)} {drive : Drive p host}
    (folder : Folder p host drive) where
  -- A directory that is there is listed with the names that the reference has.
  pub check_names_lem :
      (fuel : ℕ) (pfs : Pfs) (path : Text) (dirs names : List Text) (w : World p)
      → folder.Dirs dirs w.outside
      → (is_plain path && all_plain dirs) ≡ true
      → is_there path dirs ≡ true
      → NoNul (on_device (bytes "pfs0:") (bytes "/" ++ path))
      → shown_names (bytes "." ∷ bytes ".." ∷ children path dirs) ≡ names
      → length (children path dirs) < fuel
      → Reaches
          (check_names p (suc (suc fuel)) pfs (bytes "/" ++ path) names)
          w
          tt
          (folder.Dirs dirs)
  unfolding check_names attempt assert ◌>>=◌
  check_names_lem fuel pfs path dirs names w holds plain there fine shown h =
      let (ds, s', session, texts, after) = folder.listed path dirs w.outside holds plain there in
      let message = bytes "could not convert partition entry name" in
      let (same, es, listed, found) =
        entry_names-listed (bytes "/" ++ path) message ds _ (texts message) in
      let (result, world) =
        list_dir-listed_entries p (suc (suc fuel)) pfs (bytes "/" ++ path) ds w s' fine session
          (omega arith) in
      let gives = result ∙ listed in
      let kept = world es listed in
      record {
        outside = s';
        reached = rw gives (rw kept (rw found (rw shown (rw (texts_eq_refl names)))));
        after = after;
      }
