-- ===== src/Hdd/Open/Drivers.antt =====
-- The two drivers that `open` starts: what is left where one of them fails.
use ps2hdd_rs.Prelude.{pos, ◌≡◌, ◌≢◌, ◌⊎◌, inl, inr, Text, bytes, ok, err, false}
use ps2hdd_rs.Ffi.Laws.{Negatable, ok_on_zero-cases}
use ps2hdd_rs.Hdd.Open.{close_and_release, init_drivers}
use ps2hdd_rs.Sys.Bindings.{Bindings}
use ps2hdd_rs.Sys.Platform.{Platform}
use ps2hdd_rs.Sys.World.{World, on_err, ◌>>=◌}

module _ {b : Bindings} (p : Platform b) where
  -- The world after a failure: the device closed, the mark taken away.
  abbrev pub closed : World p → p.State → World p
  closed w s = record {
    is_device_active = false;
    atad_device_path = w.atad_device_path;
    outside = p.atad_close s;
  }

  -- If both results can be negated, the drivers are started one after the other and the mark stays,
  -- or the first one that fails makes an error: the device is closed then, the mark is taken away,
  -- and the PFS driver is not started after an APA driver that failed.
  pub init_drivers-closed :
      (w : World p)
      → let (apa, s₁) = p.init_apa w.atad_device_path w.outside in
        let (pfs, s₂) = p.init_pfs s₁ in
        Negatable p apa
        → Negatable p pfs
        → ((apa ≡ pos 0) × (pfs ≡ pos 0) × (init_drivers p w ≡ (ok tt, record w { outside = s₂ })))
          ⊎ ((apa ≢ pos 0) × (m : Text) × (init_drivers p w ≡ (err m, closed w s₁)))
          ⊎ ((apa ≡ pos 0) × (pfs ≢ pos 0) × (m : Text) × (init_drivers p w ≡ (err m, closed w s₂)))
  unfolding init_drivers on_err close_and_release ◌>>=◌
  init_drivers-closed w fine fine' =
      let (apa, s₁) = p.init_apa w.atad_device_path w.outside in
      let (pfs, s₂) = p.init_pfs s₁ in
      elim (ok_on_zero-cases p apa (bytes "Unable to initialize APA partition driver") fine) [
        | inr (other, m, e) ↦ inr (inl (other, m, rw e))
        | inl (zero, e) ↦
            rw e
              (elim (ok_on_zero-cases p pfs (bytes "Unable to initialize PFS filesystem driver")
                fine') [
                  | inl (zero', e') ↦ inl (zero, zero', rw e')
                  | inr (other', m', e') ↦ inr (inr (zero, other', m', rw e'))
                ])
      ]
