-- ===== src/Driver/Tree.antt =====
-- `create_dir_all` on a device that keeps a tree of directories.
use ps2hdd_rs.Prelude.{
  ℕ, zero, suc, ◌<◌, pos, negsuc, Text, ◌≡◌, refl, sym, ap, ◌∙◌, Bool, true, false, ◌||◌, text_eq,
  text_eq→eq, text_eq_refl, ◌⊎◌, Option, none, some, Outcome, ok, length, arith, Bool-cases, inl,
  inr,
}
use ps2hdd_rs.Driver.{Driver, first_verdict, create_dir_impl, create_dir_all_impl, create_dir_all}
use ps2hdd_rs.Driver.Attempt.{
  device_path, create_dir_impl_lem, created-pos, made_at_once, made_after_parent,
}
use ps2hdd_rs.Driver.Missing.{StandardErrors, error_told, no_entry-climbs}
use ps2hdd_rs.Std.CString.{NoNul}
use ps2hdd_rs.Std.FilePath.{parent}
use ps2hdd_rs.Std.FilePath.Laws.{length-parent}
use ps2hdd_rs.Sys.Bindings.{Bindings}
use ps2hdd_rs.Sys.Platform.{Platform}
use ps2hdd_rs.Sys.World.{World}

-- A device that keeps a tree: among the paths that are named, `mkdir` makes a directory whose parent
-- is there and no other, and answers `ENOENT` where the parent is missing.
pub record Tree {b : Bindings} (p : Platform b) (root : Text) : Type 1 where
  pub Named : Text → Type 0
  pub has : Text → p.State → Bool
  pub Named-parent : (path : Text) {q : Text} → Named path → parent path ≡ some q → Named q
  pub Named-NoNul : (path : Text) → Named path → NoNul (device_path root path)
  pub makes :
      (path : Text) (s : p.State)
      → Named path
      → has path s ≡ false
      → ((q : Text) → parent path ≡ some q → has q s ≡ true)
      → (n : ℕ) × (s' : p.State) × (p.iomanx_mkdir (device_path root path) 0o777 s ≡ (pos n, s'))
        × ((x : Text) → Named x → has x s' ≡ (text_eq x path || has x s))
  pub misses :
      (path q : Text) (s : p.State)
      → Named path
      → parent path ≡ some q
      → has q s ≡ false
      → p.iomanx_mkdir (device_path root path) 0o777 s ≡ (negsuc 1, s)

-- A path, or one of its parents.
pub data Above (x : Text) : Text → Type 0 where
  itself : Above x x
  higher : (path : Text) {q : Text} → parent path ≡ some q → Above x q → Above x path

same_length : (x path : Text) → length path < length x → text_eq x path ≡ false
same_length x path h = elim (Bool-cases (text_eq x path)) [
  | inl same ↦ absurd (let e = ap length (text_eq→eq x path same) in omega arith)
  | inr other ↦ other
]

module _ {b : Bindings} {p : Platform b} {root : Text} (tree : Tree p root) where
  -- The directory is there, nothing was removed, and what is new is the directory or one of its
  -- parents, so nothing with a longer name.
  abbrev pub Made : Text → p.State → p.State → Type 0
  Made path s s' =
      (tree.has path s' ≡ true)
      × ((x : Text) → tree.Named x → length path < length x → tree.has x s' ≡ tree.has x s)
      × ((x : Text) → tree.Named x → tree.has x s ≡ true → tree.has x s' ≡ true)
      × ((x : Text) → tree.Named x → tree.has x s' ≡ true → (tree.has x s ≡ true) ⊎ Above x path)

  Made-mkdir :
      (path : Text) (s s' : p.State)
      → tree.Named path
      → ((x : Text) → tree.Named x → tree.has x s' ≡ (text_eq x path || tree.has x s))
      → Made path s s'
  Made-mkdir path s s' named e = (
    rw (e path named, text_eq_refl path),
    λ x fine longer. rw (e x fine, same_length x path longer),
    λ x fine there. rw (e x fine, there) (ground arith),
    λ x fine now. elim (Bool-cases (text_eq x path)) [
      | inl same ↦ inr (rw (text_eq→eq x path same) itself)
      | inr other ↦ inl (let known = e x fine in ground arith)
    ],
  )

  make_now :
      (path : Text) (w : World p)
      → tree.Named path
      → tree.has path w.outside ≡ false
      → ((q : Text) → parent path ≡ some q → tree.has q w.outside ≡ true)
      → (w' : World p) × (create_dir_impl p root path w ≡ (ok tt, w'))
        × Made path w.outside w'.outside
  make_now path w named missing above =
      let (n, s', e, marks) = tree.makes path w.outside named missing above in
      (
        record w { outside = s' },
        create_dir_impl_lem p root path w (tree.Named-NoNul path named) e
            ∙ ap (λ (r : Outcome (Unit {0})). (r, record w { outside = s' })) (created-pos p n),
        Made-mkdir path w.outside s' named marks,
      )

  -- A missing parent, made first.
  make_above :
      (fuel : ℕ) (path q : Text) (w w₁ : World p)
      → StandardErrors p
      → tree.Named path
      → tree.has path w.outside ≡ false
      → parent path ≡ some q
      → tree.has q w.outside ≡ false
      → create_dir_all_impl p fuel root q w ≡ (ok tt, w₁)
      → Made q w.outside w₁.outside
      → (w' : World p) × (create_dir_all_impl p (suc fuel) root path w ≡ (ok tt, w'))
        × Made path w.outside w'.outside
  make_above fuel path q w w₁ std named missing up no_parent above (there, longer, kept, only) =
      let shorter = length-parent path up in
      let (w', second, (made, longer', kept', only')) =
        make_now path w₁ named (longer path named shorter ∙ missing)
          (λ q' up'. ap (λ x. tree.has x w₁.outside) (same_parent q' up') ∙ there) in
      let (m, told_m) = error_told p 1 std (ground arith) in
      (
        w',
        made_after_parent p fuel root path q _ w w₁ w'
            (create_dir_impl_lem p root path w (tree.Named-NoNul path named)
                (tree.misses path q w.outside named up no_parent)
              ∙ ap (λ (r : Outcome (Unit {0})). (r, w)) told_m)
            (ap (λ r. first_verdict r (p.is_dir path w.outside)) (sym told_m)
              ∙ no_entry-climbs p (p.is_dir path w.outside) std)
            up above second,
        (
          made,
          λ x fine h. longer' x fine h ∙ longer x fine (omega arith),
          λ x fine h. kept' x fine (kept x fine h),
          λ x fine now. elim (only' x fine now) [
            | inr here ↦ inr here
            | inl before ↦ elim (only x fine before) [
              | inl first ↦ inl first
              | inr over ↦ inr (higher path up over)
            ]
          ],
        ),
      )
    where
      same_parent : (q' : Text) → parent path ≡ some q' → q' ≡ q
      same_parent q' up' = cc

  make_all :
      (fuel : ℕ) (path : Text) (w : World p)
      → StandardErrors p
      → length path < fuel
      → tree.Named path
      → tree.has path w.outside ≡ false
      → (w' : World p) × (create_dir_all_impl p fuel root path w ≡ (ok tt, w'))
        × Made path w.outside w'.outside
  make_all zero path w std h named missing = absurd (omega arith)
  make_all (suc fuel) path w std h named missing = from_parent (parent path) refl (λ q e no_parent.
      let shorter = length-parent path e in
      make_all fuel q w std (omega arith) (tree.Named-parent path named e) no_parent)
    where
      at_once :
          ((q : Text) → parent path ≡ some q → tree.has q w.outside ≡ true)
          → (w' : World p) × (create_dir_all_impl p (suc fuel) root path w ≡ (ok tt, w'))
            × Made path w.outside w'.outside
      at_once above =
          let (w', e, made) = make_now path w named missing above in
          (w', made_at_once p fuel root path w w' e, made)

      from_parent :
          (up : Option Text)
          → parent path ≡ up
          → ((q : Text)
              → parent path ≡ some q
              → tree.has q w.outside ≡ false
              → (w' : World p) × (create_dir_all_impl p fuel root q w ≡ (ok tt, w'))
                × Made q w.outside w'.outside)
          → (w' : World p) × (create_dir_all_impl p (suc fuel) root path w ≡ (ok tt, w'))
            × Made path w.outside w'.outside
      from_parent none e rest = at_once (λ q up. absurd (cc))
      from_parent (some q) e rest = elim (Bool-cases (tree.has q w.outside)) [
        | inl there ↦ at_once (λ q' up. let same : q' ≡ q = cc in rw same there)
        | inr no_parent ↦
            let (w₁, above, made) = rest q e no_parent in
            make_above fuel path q w w₁ std named missing e no_parent above made
      ]

module _ {b : Bindings} (p : Platform b) {D : Type 0} ⦃d : Driver D⦄ where
  -- On a device that keeps a tree, with the usual text for `ENOENT`, `create_dir_all` of a named
  -- path that is not there succeeds: the directory is there afterwards, no directory was removed,
  -- and what is new is the directory or one of its parents.
  pub create_dir_all-Made :
      (self : D) (path : Text) (w : World p) (tree : Tree p (d.get_device_root self))
      → StandardErrors p
      → tree.Named path
      → tree.has path w.outside ≡ false
      → (w' : World p) × (create_dir_all p self path w ≡ (ok tt, w'))
        × Made tree path w.outside w'.outside
  unfolding create_dir_all
  create_dir_all-Made self path w tree std named missing =
      make_all tree (suc (length path)) path w std (omega arith) named missing
