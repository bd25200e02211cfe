-- ===== src/Driver/CreateAll.antt =====
-- `create_dir_all` ends: its fuel is enough.
use ps2hdd_rs.Prelude.{
  ℕ, zero, suc, ◌<◌, Text, ◌≡◌, refl, inl, inr, true, is_finished, Option, none, some, length,
  arith, ℤ, neg,
}
use ps2hdd_rs.Driver.{
  Driver, Verdict, done, give_up, climb, first_verdict, path_cstring, create_dir_impl, climb_to,
  settle, create_missing, create_dir_all_impl, create_dir_all,
}
use ps2hdd_rs.Ffi.{describe, ok_on_nonnegative_or_strerror}
use ps2hdd_rs.Std.CString.Laws.{cstring_new-cases}
use ps2hdd_rs.Std.FilePath.{parent}
use ps2hdd_rs.Std.FilePath.Laws.{length-parent}
use ps2hdd_rs.Std.Utf8.{from_utf8}
use ps2hdd_rs.Std.Utf8.Laws.{from_utf8-cases}
use ps2hdd_rs.Sys.Bindings.{Bindings}
use ps2hdd_rs.Sys.Platform.{Platform}
use ps2hdd_rs.Sys.World.Ends.{
  Ends, Ends-bind, Ends-pure, Ends-fail, Ends-query, Ends-attempt, end_rules,
}
use ps2hdd_rs.Sys.World.{World, Io}

module _ {b : Bindings} (p : Platform b) where
  path_cstring-finished : (path : Text) → is_finished (path_cstring path) ≡ true
  path_cstring-finished path = elim (cstring_new-cases path) [
    | inl (e, h) ↦ rw e
    | inr (m, e) ↦ rw e
  ]

  describe-finished :
      (m : Text) (x : ℤ) (s : Text) → is_finished (describe m x (from_utf8 s)) ≡ true
  describe-finished m x s = elim (from_utf8-cases s) [ inl (e, u) ↦ rw e | inr (t, e) ↦ rw e ]

  nonnegative-finished :
      (x : ℤ) (m : Text) → is_finished (ok_on_nonnegative_or_strerror p x m) ≡ true
  unfolding ok_on_nonnegative_or_strerror
  nonnegative-finished x m =
      ground
        (arith, describe-finished m x (p.strerror x), describe-finished m x (p.strerror (neg x)))

  create_dir_impl-Ends : (device_root path : Text) → Ends (create_dir_impl p device_root path)
  unfolding create_dir_impl
  create_dir_impl-Ends device_root path =
      search (end_rules, path_cstring-finished, nonnegative-finished) depth 9

  settle-Ends : (verdict : Verdict) → Ends (settle p verdict)
  unfolding settle
  settle-Ends done = Ends-pure tt
  settle-Ends (give_up e) = Ends-fail e
  settle-Ends climb = Ends-pure tt

  climb_to-Ends :
      (create : Text → Io p (Unit {0})) (up : Option Text)
      → ((q : Text) → up ≡ some q → Ends (create q))
      → Ends (climb_to p create up)
  climb_to-Ends create none h = Ends-fail _
  climb_to-Ends create (some q) h = h q refl

  create_missing-Ends :
      (create : Text → Io p (Unit {0})) (device_root path : Text) (verdict : Verdict)
      → ((q : Text) → parent path ≡ some q → Ends (create q))
      → Ends (create_missing p create device_root path verdict)
  unfolding create_missing
  create_missing-Ends create device_root path done h = Ends-pure tt
  create_missing-Ends create device_root path (give_up e) h = Ends-fail e
  create_missing-Ends create device_root path climb h =
      Ends-bind _ _ (climb_to-Ends create (parent path) h)
        (λ _. search (end_rules, create_dir_impl-Ends, settle-Ends) depth 9)

  impl-Ends :
      (fuel : ℕ) (device_root path : Text)
      → length path < fuel
      → Ends (create_dir_all_impl p fuel device_root path)
  unfolding create_dir_all_impl
  impl-Ends zero device_root path h = elim h [ ]
  impl-Ends (suc fuel) device_root path h =
      Ends-bind _ _ (Ends-attempt _ (create_dir_impl-Ends device_root path)) (λ first.
        Ends-bind _ _ (Ends-query _) (λ is_dir.
          create_missing-Ends (create_dir_all_impl p fuel device_root) device_root path
            (first_verdict first is_dir)
            (λ q e.
              let shorter = length-parent path e in impl-Ends fuel device_root q (omega arith))))

  -- `create_dir_all` comes to an end on every path: a parent is shorter than its path.
  pub create_dir_all-finished :
      {D : Type 0} ⦃d : Driver D⦄ (self : D) (path : Text) (w : World p)
      → is_finished (create_dir_all p self path w).0 ≡ true
  unfolding create_dir_all
  create_dir_all-finished ⦃d⦄ self path w =
      (impl-Ends (suc (length path)) (d.get_device_root self) path (omega arith)).at w
