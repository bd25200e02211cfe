-- ===== src/Driver/Ended.antt =====
-- `create_dir_all` where no parent is missing: it ends with the first attempt.
use ps2hdd_rs.Prelude.{
  ℕ, suc, ℤ, pos, negsuc, Text, ◌≡◌, ◌≢◌, refl, ◌⊎◌, inl, inr, true, false, text_eq, ok, err,
  is_negative, length, Bool-cases,
}
use ps2hdd_rs.Driver.{
  Driver, missing_parent, first_verdict, create_dir_impl, create_missing, create_dir_all_impl,
  create_dir_all,
}
use ps2hdd_rs.Driver.Attempt.{device_path, create_dir_impl_lem, created-pos, made_at_once}
use ps2hdd_rs.Driver.Missing.{StandardErrors, created, told, error_told, told-climbs}
use ps2hdd_rs.Ffi.Laws.{Negatable}
use ps2hdd_rs.Std.CString.{NoNul}
use ps2hdd_rs.Sys.Bindings.{Bindings}
use ps2hdd_rs.Sys.Platform.{Platform}
use ps2hdd_rs.Sys.World.{World, Io, attempt, ◌>>=◌}

module _ {b : Bindings} (p : Platform b) where
  -- An error of another number is the result, unless the host has the directory.
  given_up :
      (fuel : ℕ) (root path t : Text) (n : ℕ) (w w' : World p)
      → create_dir_impl p root path w ≡ (err (told (negsuc n) t), w')
      → negsuc n ≢ negsuc 1
      → ((p.is_dir path w'.outside ≡ true)
          × (create_dir_all_impl p (suc fuel) root path w ≡ (ok tt, w')))
        ⊎ ((p.is_dir path w'.outside ≡ false)
            × (create_dir_all_impl p (suc fuel) root path w ≡ (err (told (negsuc n) t), w')))
  unfolding create_dir_all_impl attempt ◌>>=◌ first_verdict create_missing
  given_up fuel root path t n w w' e other =
      elim (Bool-cases (text_eq (told (negsuc n) t) missing_parent)) [
        | inl same ↦ absurd (other (told-climbs (negsuc n) t false (rw same)))
        | inr differs ↦ elim (Bool-cases (p.is_dir path w'.outside)) [
          | inl there ↦ inl (there, rw e (rw (differs, there)))
          | inr absent ↦ inr (absent, rw e (rw (differs, absent)))
        ]
      ]

  -- The two ends, for a fuel that allows an attempt.
  abbrev pub EndedWith : Io p (Unit {0}) → Text → ℤ → p.State → World p → Type 0
  EndedWith action path result s w =
      (((is_negative result ≡ false) ⊎ (p.is_dir path s ≡ true))
        × (action w ≡ (ok tt, record w { outside = s })))
      ⊎ (((is_negative result ≡ true) × (p.is_dir path s ≡ false))
          × (t : Text) × (action w ≡ (err (told result t), record w { outside = s })))

  ended :
      (fuel : ℕ) (root path : Text) (w : World p) (result : ℤ) (s : p.State)
      → create_dir_impl p root path w ≡ (created p result, record w { outside = s })
      → StandardErrors p
      → Negatable p result
      → result ≢ negsuc 1
      → EndedWith (create_dir_all_impl p (suc fuel) root path) path result s w
  ended fuel root path w (pos n) s e std fine other =
      inl (inl refl, made_at_once p fuel root path w _ (rw (created-pos p n) at e))
  ended fuel root path w (negsuc n) s e std fine other =
      let (t, told_so) = error_told p n std fine in
      elim (given_up fuel root path t n w (record w { outside = s }) (rw told_so at e) other) [
        | inl (there, end) ↦ inl (inr there, end)
        | inr (absent, end) ↦ inr ((refl, absent), t, end)
      ]

  -- If `strerror` gives text, and the usual one for `ENOENT`, the path holds no NUL, and the result
  -- of `mkdir` can be negated and is not -2, `create_dir_all` makes that one call: it succeeds if the
  -- result is not negative or the host has a directory of that name, and otherwise returns an
  -- error that tells the result.
  pub create_dir_all-ended :
      {D : Type 0} ⦃d : Driver D⦄ (self : D) (path : Text) (w : World p)
      → let root = d.get_device_root self in
        let (result, s) = p.iomanx_mkdir (device_path root path) 0o777 w.outside in
        NoNul (device_path root path)
        → StandardErrors p
        → Negatable p result
        → result ≢ negsuc 1
        → EndedWith (create_dir_all p self path) path result s w
  unfolding create_dir_all
  create_dir_all-ended ⦃d⦄ self path w fine =
      let root = d.get_device_root self in
      ended (length path) root path w _ _ (create_dir_impl_lem p root path w fine refl)
