-- ===== src/Driver/Attempt.antt =====
-- One level of `create_dir_all`: an attempt that succeeds, and one that first needs the parent.
use ps2hdd_rs.Prelude.{
  ℕ, suc, ℤ, pos, negsuc, Bool, Text, bytes, ◌≡◌, ◌↔◌, refl, some, Outcome, ok, err, panic,
  undefined, out_of_fuel, ◌>>?◌,
}
use ps2hdd_rs.Driver.{
  climb, first_verdict, second_verdict, on_device, create_dir_impl, create_dir_all_impl,
}
use ps2hdd_rs.Driver.Missing.{StandardErrors, created, first_verdict-climb_iff}
use ps2hdd_rs.Ffi.Laws.{Negatable, ok_on_nonnegative_iff}
use ps2hdd_rs.Std.CString.{NoNul}
use ps2hdd_rs.Std.CString.Laws.{cstring_new-NoNul}
use ps2hdd_rs.Std.FilePath.{parent}
use ps2hdd_rs.Std.Utf8.{from_utf8_lossy}
use ps2hdd_rs.Sys.Bindings.{Bindings}
use ps2hdd_rs.Sys.Platform.{Platform}
use ps2hdd_rs.Sys.World.{World, pure, attempt, continue, ◌>>=◌}

-- The path that `mkdir` is given.
abbrev pub device_path : Text → Text → Text
device_path root path = on_device root (from_utf8_lossy path)

module _ {b : Bindings} (p : Platform b) where
  then_unit :
      (r : Outcome ℤ) (w : World p)
      → continue {p = p} r (λ _. pure (tt {0})) w ≡ ((r >>? λ _. ok (tt {0})), w)
  unfolding ◌>>=◌
  then_unit (ok n) w = refl
  then_unit (err e) w = refl
  then_unit (panic e) w = refl
  then_unit undefined w = refl
  then_unit out_of_fuel w = refl

  -- What `create_dir_impl` makes of the result of `mkdir`.
  pub create_dir_impl_lem :
      (root path : Text) (w : World p) {r : ℤ} {s : p.State}
      → NoNul (device_path root path)
      → p.iomanx_mkdir (device_path root path) 0o777 w.outside ≡ (r, s)
      → create_dir_impl p root path w ≡ (created p r, record w { outside = s })
  unfolding create_dir_impl ◌>>=◌
  create_dir_impl_lem root path w {r} {s} fine e =
      rw (cstring_new-NoNul (device_path root path) fine)
        (rw e (then_unit _ (record w { outside = s })))

  pub created-pos : (n : ℕ) → created p (pos n) ≡ ok tt
  created-pos n =
      let e =
        (ok_on_nonnegative_iff p (pos n) (pos n) (bytes "failed to create directory")).1
          (refl, refl) in
      rw e

  -- If `strerror` gives text, and the usual one for `ENOENT`, the path holds no NUL and the result can
  -- be negated, the test of `create_dir_impl`'s message against a literal is a test of the number: the
  -- parents are made exactly if `mkdir` returned -2.
  pub first_verdict-create_dir_impl :
      (root path : Text) (w : World p) (is_dir : Bool)
      → let (result, s) = p.iomanx_mkdir (device_path root path) 0o777 w.outside in
        NoNul (device_path root path)
        → StandardErrors p
        → Negatable p result
        → (first_verdict (create_dir_impl p root path w).0 is_dir ≡ climb) ↔ (result ≡ negsuc 1)
  first_verdict-create_dir_impl root path w is_dir fine std negatable =
      rw (create_dir_impl_lem root path w fine refl) (
        first_verdict-climb_iff p (p.iomanx_mkdir (device_path root path) 0o777 w.outside).0 is_dir
          std negatable)

  -- A first attempt that succeeds ends `create_dir_all`.
  pub made_at_once :
      (fuel : ℕ) (root path : Text) (w w' : World p)
      → create_dir_impl p root path w ≡ (ok tt, w')
      → create_dir_all_impl p (suc fuel) root path w ≡ (ok tt, w')
  unfolding create_dir_all_impl attempt ◌>>=◌ first_verdict
  made_at_once fuel root path w w' e = rw e

  -- A missing parent is made first.
  pub made_after_parent :
      (fuel : ℕ) (root path q m : Text) (w w₁ w₂ : World p)
      → create_dir_impl p root path w ≡ (err m, w)
      → first_verdict (err m) (p.is_dir path w.outside) ≡ climb
      → parent path ≡ some q
      → create_dir_all_impl p fuel root q w ≡ (ok tt, w₁)
      → create_dir_impl p root path w₁ ≡ (ok tt, w₂)
      → create_dir_all_impl p (suc fuel) root path w ≡ (ok tt, w₂)
  unfolding create_dir_all_impl attempt ◌>>=◌ second_verdict
  made_after_parent fuel root path q m w w₁ w₂ first climbs up above second =
      rw first (rw climbs (rw up (rw above (rw second))))
