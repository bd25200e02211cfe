-- ===== src/Scenarios/Directories/Steps/Making.antt =====
-- Making directories on a folder, one after the other.
use ps2hdd_rs.Prelude.{
  ℕ, suc, ◌≡◌, sym, ap, ◌∙◌, ℤ, pos, negsuc, Text, bytes, List, ◌∷◌, true, Outcome, arith, some,
}
use ps2hdd_rs.Driver.{create_dir_impl, create_dir_all_impl, first_verdict}
use ps2hdd_rs.Driver.Attempt.{
  device_path, create_dir_impl_lem, created-pos, made_at_once, made_after_parent,
}
use ps2hdd_rs.Driver.Missing.{error_told, no_entry-climbs}
use ps2hdd_rs.Scenarios.{demo_file_path}
use ps2hdd_rs.Scenarios.Directories.Folder.{Folder, make_directory, is_plain}
use ps2hdd_rs.Scenarios.Disks.Drive.{Drive}
use ps2hdd_rs.Scenarios.Host.{Host}
use ps2hdd_rs.Scenarios.Reaches.{Reaches}
use ps2hdd_rs.Std.CString.{NoNul}
use ps2hdd_rs.Std.FilePath.{parent}
use ps2hdd_rs.Sys.Bindings.{Bindings}
use ps2hdd_rs.Sys.Platform.{Platform}
use ps2hdd_rs.Sys.World.{World}

abbrev pub root : Text
root = bytes "pfs0:"

module _ {b : Bindings} {p : Platform b} {host : Host p (demo_file_path p)} {drive : Drive p host}
    (folder : Folder p host drive) where
  -- A directory that the reference makes is made.
  pub create_dir_impl-makes :
      (path : Text) (dirs : List Text) (w : World p)
      → folder.Dirs dirs w.outside
      → is_plain path ≡ true
      → NoNul (device_path root path)
      → make_directory path dirs ≡ (pos 0, path ∷ dirs)
      → Reaches (create_dir_impl p root path) w tt (folder.Dirs (path ∷ dirs))
  create_dir_impl-makes path dirs w holds plain fine made =
      let (s, e, after) = folder.makes path dirs w.outside holds plain in
      record {
        outside = s;
        reached =
            create_dir_impl_lem p root path w fine (e ∙ ap (λ (r : ℤ × List Text). (r.0, s)) made)
            ∙ ap (λ (r : Outcome (Unit {0})). (r, record w { outside = s })) (created-pos p 0);
        after = rw (← ap (λ (r : ℤ × List Text). r.1) made) after;
      }

  pub at_once :
      (fuel : ℕ) (path : Text) (dirs : List Text) (w : World p)
      → folder.Dirs dirs w.outside
      → is_plain path ≡ true
      → NoNul (device_path root path)
      → make_directory path dirs ≡ (pos 0, path ∷ dirs)
      → Reaches (create_dir_all_impl p (suc fuel) root path) w tt (folder.Dirs (path ∷ dirs))
  at_once fuel path dirs w holds plain fine made =
      let now = create_dir_impl-makes path dirs w holds plain fine made in
      record {
        outside = now.outside;
        reached = made_at_once p fuel root path w _ now.reached;
        after = now.after;
      }

  -- A missing parent is made first.
  pub above_first :
      (fuel : ℕ) (path q : Text) (dirs above : List Text) (w : World p)
      → folder.Dirs dirs w.outside
      → is_plain path ≡ true
      → NoNul (device_path root path)
      → parent path ≡ some q
      → make_directory path dirs ≡ (negsuc 1, dirs)
      → make_directory path above ≡ (pos 0, path ∷ above)
      → Reaches (create_dir_all_impl p fuel root q) w tt (folder.Dirs above)
      → Reaches (create_dir_all_impl p (suc fuel) root path) w tt (folder.Dirs (path ∷ above))
  above_first fuel path q dirs above w holds plain fine up missing made first =
      let (m, told_m) = error_told p 1 folder.errors (ground arith) in
      let refused =
        folder.unmade path dirs w.outside holds plain (ap (λ (r : ℤ × List Text). r.0) missing) in
      let now =
        create_dir_impl-makes path above (record w { outside = first.outside }) first.after plain
          fine made in
      record {
        outside = now.outside;
        reached =
            made_after_parent p fuel root path q _ w _ _
              (create_dir_impl_lem p root path w fine refused
                ∙ ap (λ (r : Outcome (Unit {0})). (r, w)) told_m)
              (ap (λ r. first_verdict r (p.is_dir path w.outside)) (sym told_m)
                ∙ no_entry-climbs p (p.is_dir path w.outside) folder.errors)
              up first.reached now.reached;
        after = now.after;
      }
