-- ===== src/Driver/Removal.antt =====
-- `remove_dir` on each of its branches.
use ps2hdd_rs.Prelude.{Text, bytes, ◌++◌, ◌≡◌, ◌⊎◌, inl, inr, true, false, ok, err, is_negative}
use ps2hdd_rs.Driver.{Driver, remove_dir}
use ps2hdd_rs.Ffi.Laws.{Negatable, ok_on_nonnegative-cases}
use ps2hdd_rs.Std.CString.{NoNul}
use ps2hdd_rs.Std.CString.Laws.{cstring_new-NoNul, cstring_new-cases}
use ps2hdd_rs.Sys.Bindings.{Bindings}
use ps2hdd_rs.Sys.Platform.{Platform}
use ps2hdd_rs.Sys.World.{World, ◌>>=◌}

module _ {b : Bindings} (p : Platform b) {D : Type 0} ⦃d : Driver D⦄ where
  -- The path under the root of the device.
  abbrev pub under_root : D → Text → Text
  under_root self path = d.get_device_root self ++ (bytes "/" ++ path)

  -- If the result of `iomanx_rmdir` can be negated, `remove_dir` refuses a path with a NUL before any
  -- call, makes one call for any other path under the device's root, and succeeds then exactly if
  -- the result is not negative.
  pub remove_dir-ends :
      (self : D) (path : Text) (w : World p)
      → let (result, s) = p.iomanx_rmdir (under_root self path) w.outside in
        Negatable p result
        → ((¬ NoNul (under_root self path)) × (m : Text) × (remove_dir p self path w ≡ (err m, w)))
          ⊎ ((NoNul (under_root self path) × (is_negative result ≡ true))
              × (m : Text) × (remove_dir p self path w ≡ (err m, record w { outside = s })))
          ⊎ ((NoNul (under_root self path) × (is_negative result ≡ false))
              × (remove_dir p self path w ≡ (ok tt, record w { outside = s })))
  unfolding remove_dir ◌>>=◌
  remove_dir-ends self path w negatable =
      let (result, s) = p.iomanx_rmdir (under_root self path) w.outside in
      elim (cstring_new-cases (under_root self path)) [
        | inr (m, failed) ↦ inl (
          λ fine. let good = cstring_new-NoNul (under_root self path) fine in cc,
          bytes "couldn't convert path: " ++ m,
          rw failed,
        )
        | inl (good, fine) ↦
            elim (ok_on_nonnegative-cases p result (bytes "failed to delete directory") negatable) [
              | inr (below, m, e) ↦ inr (inl ((fine, below), m, rw good (rw e)))
              | inl (plain, e) ↦ inr (inr ((fine, plain), rw good (rw e)))
            ]
      ]
