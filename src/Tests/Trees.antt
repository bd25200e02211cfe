-- ===== src/Tests/Trees.antt =====
-- `create_dir_all` on a small tree.
use ps2hdd_rs.Prelude.{
  ℕ, ◌≡◌, refl, sym, ap, ◌∙◌, Text, bytes, Bool, true, false, [], ◌∷◌, some, ok, ◌||◌, text_eq,
  if◌then◌else◌, pos, negsuc,
}
use ps2hdd_rs.Driver.{Pfs, pfs_driver, create_dir_all}
use ps2hdd_rs.Driver.Missing.{StandardErrors}
use ps2hdd_rs.Driver.Attempt.{device_path}
use ps2hdd_rs.Driver.Tree.{Tree, Made, create_dir_all-Made}
use ps2hdd_rs.Std.CString.{NoNul}
use ps2hdd_rs.Std.FilePath.{parent}
use ps2hdd_rs.Std.Utf8.{validate, advance, from_utf8_lossy}
use ps2hdd_rs.Sys.World.{World}
use ps2hdd_rs.Tests.Sim.{Image, sim, is_made, world}

abbrev games : Pfs
games = record { partition_name = bytes "+OPL" }

abbrev root : Text
root = pfs_driver.get_device_root games

data Named : Text → Type 0 where
  top : Named []
  one : Named (b'a' ∷ [])
  two : Named (b'a' ∷ b'/' ∷ b'b' ∷ [])

abbrev has : Text → Image → Bool
has path s = is_made (device_path root path) s.made

parent-Named : (path : Text) {q : Text} → Named path → parent path ≡ some q → Named q
unfolding parent
parent-Named _ top e = absurd (cc)
parent-Named _ {q} one e = let same : q ≡ [] = cc in rw same top
parent-Named _ {q} two e = let same : q ≡ b'a' ∷ [] = cc in rw same one

device_path-NoNul : (path : Text) → Named path → NoNul (device_path root path)
unfolding from_utf8_lossy bytes
device_path-NoNul _ top = (refl, (refl, (refl, (refl, (refl, (refl, tt))))))
device_path-NoNul _ one = (refl, (refl, (refl, (refl, (refl, (refl, (refl, tt)))))))
device_path-NoNul _ two = (refl, (refl, (refl, (refl, (refl, (refl, (refl, (refl, (refl, tt)))))))))

marks :
    (path x : Text)
    → Named path
    → Named x
    → (b : Bool)
    → (if text_eq (device_path root x) (device_path root path) then true else b)
      ≡ (text_eq x path || b)
unfolding from_utf8_lossy bytes text_eq
marks _ _ top top b = refl
marks _ _ top one b = refl
marks _ _ top two b = refl
marks _ _ one top b = refl
marks _ _ one one b = refl
marks _ _ one two b = refl
marks _ _ two top b = refl
marks _ _ two one b = refl
marks _ _ two two b = refl

makes :
    (path : Text) (s : Image)
    → Named path
    → has path s ≡ false
    → ((q : Text) → parent path ≡ some q → has q s ≡ true)
    → (n : ℕ) × (s' : Image) × (sim.iomanx_mkdir (device_path root path) 0o777 s ≡ (pos n, s'))
      × ((x : Text) → Named x → has x s' ≡ (text_eq x path || has x s))
unfolding from_utf8_lossy bytes parent text_eq
makes _ s top missing above =
    let free : is_made (bytes "pfs0:/") s.made ≡ false = missing in
    rw free (0, _, refl, λ x named. marks [] x top named (has x s))
makes _ s one missing above =
    let there : is_made (bytes "pfs0:/") s.made ≡ true = above [] refl in
    rw (there, missing) (0, _, refl, λ x named. marks (b'a' ∷ []) x one named (has x s))
makes _ s two missing above =
    let there : is_made (bytes "pfs0:/a") s.made ≡ true = above (b'a' ∷ []) refl in
    rw (there, missing)
      (0, _, refl, λ x named. marks (b'a' ∷ b'/' ∷ b'b' ∷ []) x two named (has x s))

misses :
    (path q : Text) (s : Image)
    → Named path
    → parent path ≡ some q
    → has q s ≡ false
    → sim.iomanx_mkdir (device_path root path) 0o777 s ≡ (negsuc 1, s)
unfolding from_utf8_lossy bytes parent text_eq
misses _ q s top e absent = absurd (cc)
misses _ q s one e absent =
    let same : q ≡ [] = cc in
    let top_absent : has [] s ≡ false = ap (λ x. has x s) (sym same) ∙ absent in rw top_absent
misses _ q s two e absent =
    let same : q ≡ b'a' ∷ [] = cc in
    let one_absent : has (b'a' ∷ []) s ≡ false = ap (λ x. has x s) (sym same) ∙ absent in
    rw one_absent

abbrev tree : Tree sim root
tree = record {
  Named = Named;
  has = has;
  Named-parent = parent-Named;
  Named-NoNul = device_path-NoNul;
  makes = makes;
  misses = misses;
}

errors : StandardErrors sim
unfolding bytes validate advance
errors = record { is_text = λ x. refl; no_entry = refl }

-- Two directories are made.
create_dir_all-Made_example :
    (w' : World sim) × (create_dir_all sim games (b'a' ∷ b'/' ∷ b'b' ∷ []) world ≡ (ok tt, w'))
    × Made tree (b'a' ∷ b'/' ∷ b'b' ∷ []) world.outside w'.outside
unfolding from_utf8_lossy bytes text_eq
create_dir_all-Made_example =
    create_dir_all-Made sim games (b'a' ∷ b'/' ∷ b'b' ∷ []) world tree errors two refl
