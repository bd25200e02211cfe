-- ===== src/Hdd/Process/Reachable.antt =====
-- The states that a process can reach; the source says: "Only one device may be active at a time per
-- process".
use ps2hdd_rs.Prelude.{
  ℕ, ◌≤◌, ◌≡◌, refl, Bool, true, false, not, ◌||◌, Text, List, [], ◌∷◌, ◌++◌, length, Outcome, ok,
  err, is_err, arith, length-append, inl, inr,
}
use ps2hdd_rs.Hdd.Types.{Ps2hdd}
use ps2hdd_rs.Hdd.Open.{open_device, create, drop}
use ps2hdd_rs.Hdd.Open.Creation.{create-open_device}
use ps2hdd_rs.Hdd.Open.Guard.{active-open_device}
use ps2hdd_rs.Hdd.Process.{
  Process, push, Step, opened, created, used, dropped, Steps, none_yet, next, start,
}
use ps2hdd_rs.Hdd.Process.Statics.{Called-SameStatics}
use ps2hdd_rs.Sys.Bindings.{Bindings}
use ps2hdd_rs.Sys.Platform.{Platform}
use ps2hdd_rs.Sys.World.{World, ◌>>=◌}

-- How many disks the mark allows.
abbrev pub allowed : Bool → ℕ
allowed true = 1
allowed false = 0

module _ {b : Bindings} (p : Platform b) where
  -- `open` on a marked device is refused.
  pub open_device-active :
      (path : Text) (w : World p)
      → w.is_device_active ≡ true
      → is_err (open_device p path w).0 ≡ true
  unfolding open_device ◌>>=◌
  open_device-active path w h = rw h

  pub active-create :
      (path : Text) (size : ℕ) (w : World p)
      → (create p path size w).1.is_device_active
        ≡ (w.is_device_active || not (is_err (create p path size w).0))
  active-create path size w = elim (create-open_device p path size w) [
    | inl (e, failed, same) ↦ rw same (ground arith)
    | inr (inl (made, e, failed, same)) ↦ rw same (ground arith)
    | inr (inr (made, long, same)) ↦ rw same (active-open_device p path _)
  ]

  pub create-active :
      (path : Text) (size : ℕ) (w : World p)
      → w.is_device_active ≡ true
      → is_err (create p path size w).0 ≡ true
  create-active path size w h = elim (create-open_device p path size w) [
    | inl (e, failed, same) ↦ rw same
    | inr (inl (made, e, failed, same)) ↦ rw same
    | inr (inr (made, long, same)) ↦ rw same (open_device-active path _ h)
  ]

  push-allowed :
      (r : Outcome Ps2hdd) (active : Bool) (disks : List Ps2hdd)
      → (active ≡ true → is_err r ≡ true)
      → length disks ≤ allowed active
      → length (push p r disks) ≤ allowed (active || not (is_err r))
  push-allowed (ok disk) true disks refused h = ground arith
  push-allowed (ok disk) false disks refused h = ground arith
  push-allowed (err e) true disks refused h = h
  push-allowed (err e) false disks refused h = h
  push-allowed _ true disks refused h = h
  push-allowed _ false disks refused h = ground arith

  -- The invariant: no more disks than the mark allows.
  abbrev pub Sound : Process p → Type 0
  Sound s = length s.disks ≤ allowed s.world.is_device_active

  pub swap_one :
      (before after : List Ps2hdd) (self self' : Ps2hdd)
      → length (before ++ self' ∷ after) ≡ length (before ++ self ∷ after)
  swap_one before after self self' =
      rw (length-append before (self' ∷ after), length-append before (self ∷ after))

  pub rest_of_one :
      (self : Ps2hdd) (before after : List Ps2hdd) (active : Bool)
      → length (before ++ self ∷ after) ≤ allowed active
      → (active ≡ true) × (before ++ after ≡ [])
  rest_of_one self [] [] true h = (refl, refl)
  rest_of_one self [] [] false h = absurd (omega arith)
  rest_of_one self [] (d ∷ after) true h = absurd (omega arith)
  rest_of_one self [] (d ∷ after) false h = absurd (omega arith)
  rest_of_one self (d ∷ before) after true h =
      absurd (omega (arith, length-append before (self ∷ after)))
  rest_of_one self (d ∷ before) after false h = absurd (omega arith)

  dropped-Sound :
      (self : Ps2hdd) (w : World p) (before after : List Ps2hdd)
      → length (before ++ self ∷ after) ≤ allowed w.is_device_active
      → length (before ++ after) ≤ allowed (drop p w).1.is_device_active
  dropped-Sound self w before after h =
      rw ((rest_of_one self before after w.is_device_active h).1) (omega arith)

  Step-Sound : {s t : Process p} → Step p s t → Sound s → Sound t
  Step-Sound (opened path w disks) h =
      rw (active-open_device p path w) (
        push-allowed (open_device p path w).0 w.is_device_active disks (open_device-active path w)
          h)
  Step-Sound (created path size w disks) h =
      rw (active-create path size w) (
        push-allowed (create p path size w).0 w.is_device_active disks (create-active path size w)
          h)
  Step-Sound (used {self = self} {self' = self'} before after called) h =
      rw ((Called-SameStatics p called).0, swap_one before after self self') h
  Step-Sound (dropped self w before after) h = dropped-Sound self w before after h

  Steps-Sound : {s t : Process p} → Steps p s t → Sound s → Sound t
  Steps-Sound (none_yet s) h = h
  Steps-Sound (next steps step) h = Step-Sound step (Steps-Sound steps h)

  -- However a process opens, creates, uses and drops disks, at most one is alive at any time, and
  -- only while the device is marked as active.
  pub Steps-one_disk :
      {cells : Text} {outside : p.State} {s : Process p}
      → Steps p (start p cells outside) s
      → (length s.disks ≤ 1) × (s.world.is_device_active ≡ false → s.disks ≡ [])
  Steps-one_disk {s = s} steps =
      one_of s.disks s.world.is_device_active (Steps-Sound steps (omega arith))
    where
      one_of :
          (disks : List Ps2hdd) (active : Bool)
          → length disks ≤ allowed active
          → (length disks ≤ 1) × (active ≡ false → disks ≡ [])
      one_of [] active h = (omega arith, λ e. refl)
      one_of (d ∷ disks) true h = (h, λ e. absurd (cc))
      one_of (d ∷ disks) false h = absurd (omega arith)

  -- In every state that a process can reach, dropping a disk that is alive does not panic: it closes
  -- the device, takes the mark away, and leaves no disk alive.
  pub Steps-drop :
      {cells : Text} {outside : p.State} {w : World p} (self : Ps2hdd) (before after : List Ps2hdd)
      → Steps p (start p cells outside) (record { world = w; disks = before ++ self ∷ after })
      → (drop p w ≡ (
        ok tt,
        record {
          is_device_active = false;
          atad_device_path = w.atad_device_path;
          outside = p.atad_close w.outside;
        },
      ))
        × (before ++ after ≡ [])
  unfolding drop ◌>>=◌
  Steps-drop {w = w} self before after steps =
      let (active, rest) =
        rest_of_one self before after w.is_device_active (Steps-Sound steps (omega arith)) in
      (rw active, rest)
