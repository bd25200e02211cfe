-- ===== src/Tests/Directories.antt =====
-- The directories of a partition, and parents of paths.
use ps2hdd_rs.Prelude.{
  text_eq, negsuc, String, bytes, List, [], ◌∷◌, map, ◌≡◌, ◌≢◌, ◌⊎◌, Text, pos, ok, err,
  is_negative, refl, ◌↔◌, true, false, none, some, is_finished,
}
use ps2hdd_rs.Driver.{
  Pfs, pfs_driver, first_verdict, climb, create_dir_impl, create_dir_all, remove_dir,
}
use ps2hdd_rs.Driver.Attempt.{first_verdict-create_dir_impl}
use ps2hdd_rs.Driver.CreateAll.{create_dir_all-finished}
use ps2hdd_rs.Driver.Ended.{EndedWith, create_dir_all-ended}
use ps2hdd_rs.Driver.Missing.{StandardErrors}
use ps2hdd_rs.Driver.Removal.{remove_dir-ends}
use ps2hdd_rs.Std.CString.{NoNul}
use ps2hdd_rs.Std.FilePath.{parent}
use ps2hdd_rs.Std.Utf8.{validate, advance, from_utf8_lossy}
use ps2hdd_rs.Tests.Sim.{Image, image, sim, world}

abbrev games : Pfs
games = record { partition_name = bytes "+OPL" }

create_dir_all-finished_example :
    is_finished (create_dir_all sim games (bytes "a/b") world).0 ≡ true
create_dir_all-finished_example = create_dir_all-finished sim games (bytes "a/b") world

sim-StandardErrors : StandardErrors sim
unfolding validate advance bytes
sim-StandardErrors = record { is_text = λ x. refl; no_entry = refl }

-- The directory `a` is missing.
first_verdict-create_dir_impl_example :
    (first_verdict (create_dir_impl sim (bytes "pfs0:") (bytes "a/b") world).0 false ≡ climb)
    ↔ (negsuc 1 ≡ negsuc 1)
unfolding bytes from_utf8_lossy parent text_eq
first_verdict-create_dir_impl_example =
    first_verdict-create_dir_impl sim (bytes "pfs0:") (bytes "a/b") world false
      (refl, (refl, (refl, (refl, (refl, (refl, (refl, (refl, (refl, tt))))))))) sim-StandardErrors
      refl

-- A second attempt at a directory: `mkdir` answers `EEXIST`, and the host has none of that name.
abbrev made_image : Image
made_image = record image { made = bytes "pfs0:/a" ∷ bytes "pfs0:/" ∷ [] }

exists-ne-missing : negsuc 16 ≢ negsuc 1
exists-ne-missing e = cc

create_dir_all-ended_example :
    EndedWith sim
      (create_dir_all sim games (bytes "a"))
      (bytes "a")
      (negsuc 16)
      made_image
      (record world { outside = made_image })
unfolding bytes from_utf8_lossy parent text_eq
create_dir_all-ended_example =
    create_dir_all-ended sim games (bytes "a") (record world { outside = made_image })
      (refl, (refl, (refl, (refl, (refl, (refl, (refl, tt))))))) sim-StandardErrors refl
      exists-ne-missing

remove_dir-ends_example :
    ((¬ NoNul (bytes "pfs0:/a"))
      × (m : Text) × (remove_dir sim games (bytes "a") world ≡ (err m, world)))
    ⊎ ((NoNul (bytes "pfs0:/a") × (is_negative (pos 0) ≡ true))
        × (m : Text) × (remove_dir sim games (bytes "a") world ≡ (err m, world)))
    ⊎ ((NoNul (bytes "pfs0:/a") × (is_negative (pos 0) ≡ false))
        × (remove_dir sim games (bytes "a") world ≡ (ok tt, world)))
unfolding bytes
remove_dir-ends_example = remove_dir-ends sim games (bytes "a") world refl

abbrev parents_of : List String
parents_of = "a/b/c" ∷ "a//b/." ∷ "/a" ∷ "a" ∷ "./a" ∷ "a/.." ∷ []

parent_examples :
    map parent (map bytes parents_of)
    ≡ map (λ p. some (bytes p)) ("a/b" ∷ "a" ∷ "/" ∷ "" ∷ "." ∷ "a" ∷ [])
unfolding parent bytes
parent_examples = refl

parent_of_root : (parent (bytes "/") ≡ none) × (parent (bytes "") ≡ none)
unfolding parent bytes
parent_of_root = (refl, refl)
