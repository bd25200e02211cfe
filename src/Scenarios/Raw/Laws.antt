-- ===== src/Scenarios/Raw/Laws.antt =====
-- The utilities on paths that fit, and against a driver that serves entries.
use ps2hdd_rs.Prelude.{
  ℕ, zero, suc, ◌<◌, ◌≡◌, refl, ap, ◌∙◌, false, ℤ, pos, Text, List, [], ◌∷◌, ◌++◌, append_assoc,
  append-nil, ok, length, drop, ltb, text_eq_refl, arith, is_negative,
}
use ps2hdd_rs.Hdd.Open.Buffer.{write_bytes_lem}
use ps2hdd_rs.Hdd.Open.Refines.{written}
use ps2hdd_rs.Hdd.Open.Refines.Returns.{IsOpenable}
use ps2hdd_rs.ReadDir.{zeroed}
use ps2hdd_rs.ReadDir.Laws.{Serves, Session}
use ps2hdd_rs.Scenarios.{assert}
use ps2hdd_rs.Scenarios.Raw.{
  set_cells, check_cells, util_set_atad_device_path, dread_loop, check_result,
  util_iomanx_dopen_dread,
}
use ps2hdd_rs.Std.CString.Laws.{cstring_new-NoNul, read_str-terminated}
use ps2hdd_rs.Sys.Bindings.{Bindings, Dirent}
use ps2hdd_rs.Sys.Platform.{Platform}
use ps2hdd_rs.Sys.World.{World, ◌>>=◌}

module _ {b : Bindings} (p : Platform b) where
  set_cells_lem :
      (path : Text) (w : World p)
      → 0 < length path
      → length path < length w.atad_device_path
      → set_cells p path w
        ≡ (ok tt, record w { atad_device_path = written path w.atad_device_path })
  unfolding set_cells ◌>>=◌
  set_cells_lem path w h k = rw (write_bytes_lem path w.atad_device_path h k)

  check_cells_lem :
      (path cells : Text) (w : World p)
      → IsOpenable path
      → w.atad_device_path ≡ written path cells
      → check_cells p path w ≡ (ok tt, w)
  unfolding check_cells assert ◌>>=◌
  check_cells_lem path cells w fine e =
      let read = read_str-terminated path (drop (suc (length path)) cells) fine.no_nul fine.text in
      rw e (rw read (rw (text_eq_refl path)))

  -- A path that is not empty and that `open` can take is written into an array of 256 bytes as `open`
  -- writes it, and nothing else changes; no check panics.
  pub util_set_atad_device_path_lem :
      (path : Text) (w : World p)
      → IsOpenable path
      → 0 < length path
      → length w.atad_device_path ≡ 256
      → util_set_atad_device_path p path w
        ≡ (ok tt, record w { atad_device_path = written path w.atad_device_path })
  unfolding util_set_atad_device_path ◌>>=◌
  util_set_atad_device_path_lem path w fine some_path size =
      let short : ltb 255 (length path) ≡ false = ground (arith, fine.short) in
      let set : World p = record w { atad_device_path = written path w.atad_device_path } in
      rw (cstring_new-NoNul path fine.no_nul) (
        rw short (
          rw (set_cells_lem path w some_path (omega (arith, fine.short)))
            (check_cells_lem path w.atad_device_path set fine refl)))

  dread_loop-Serves :
      (fuel : ℕ) (handle : ℤ) (t t' : Dirent b) (ds out : List (Dirent b)) (w : World p)
      (s' : p.State)
      → Serves p handle t w.outside ds (pos 0) t' s'
      → length ds < fuel
      → dread_loop p fuel handle t out w ≡ (ok (out ++ ds), record w { outside = s' })
  unfolding dread_loop ◌>>=◌
  dread_loop-Serves zero handle t t' ds out w s' serves h = absurd (omega arith)
  dread_loop-Serves (suc fuel) handle t t' [] out w s' (stops, e) h = rw (e, append-nil out)
  dread_loop-Serves (suc fuel) handle t t' (d ∷ ds) out w s' (r, s₁, positive, e, serves) h =
      let fine : is_negative r ≡ false = ground arith in
      rw e (
        rw (fine, positive)
          (dread_loop-Serves fuel handle d t' ds (out ++ d ∷ []) (record w { outside = s₁ }) s'
              serves (omega arith)
            ∙ ap (λ (es : List (Dirent b)). (ok es, record w { outside = s' }))
                (append_assoc out (d ∷ []) ds)))

  -- A directory that the driver carries through is listed as it is served, `.` and `..` with it, for
  -- more fuel than entries, and is closed then.
  pub util_iomanx_dopen_dread-Session :
      (fuel : ℕ) (path : Text) (ds : List (Dirent b)) (w : World p) (s₃ : p.State)
      → Session p path ds w.outside s₃
      → length ds < fuel
      → util_iomanx_dopen_dread p fuel path w ≡ (ok ds, record w { outside = s₃ })
  unfolding util_iomanx_dopen_dread check_result assert ◌>>=◌
  util_iomanx_dopen_dread-Session fuel path ds w s₃ session h = rw session.opens (
      rw
        (dread_loop-Serves fuel (pos session.handle) (zeroed b) session.t' ds []
          (record w { outside = session.s₁ }) session.s₂ session.serves h)
        (rw session.closes))
