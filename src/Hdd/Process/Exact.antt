-- ===== src/Hdd/Process/Exact.antt =====
-- Processes over drivers whose results can be negated: whether an `open` comes back, and what the
-- mark counts.
use ps2hdd_rs.Prelude.{
  ℕ, ◌≡◌, refl, ap, ◌∙◌, Bool, true, false, not, ◌||◌, Text, List, [], ◌∷◌, length, Outcome, ok,
  err, panic, undefined, out_of_fuel, none, is_err, returns, arith, inl, inr, ◌⊎◌, pos,
}
use ps2hdd_rs.Hdd.Types.{Ps2hdd}
use ps2hdd_rs.Hdd.Open.{open_device, create, drop}
use ps2hdd_rs.Hdd.Open.Creation.{create-open_device}
use ps2hdd_rs.Hdd.Open.Guard.{active-open_device}
use ps2hdd_rs.Hdd.Open.Refines.Returns.{
  Tame, Returned, IsOpenable, open_device-Returned, open_device-opens,
}
use ps2hdd_rs.Hdd.Process.{
  Process, push, Step, opened, created, used, dropped, Steps, none_yet, next, start,
}
use ps2hdd_rs.Hdd.Process.Reachable.{
  allowed, open_device-active, create-active, active-create, swap_one, rest_of_one,
}
use ps2hdd_rs.Hdd.Process.Statics.{Called-SameStatics}
use ps2hdd_rs.Sys.Bindings.{Bindings}
use ps2hdd_rs.Sys.Platform.{Platform}
use ps2hdd_rs.Sys.World.{World, ◌>>=◌}

module _ {b : Bindings} (p : Platform b) where
  create-Returned :
      (path : Text) (size : ℕ) (w : World p)
      → Tame p
      → length w.atad_device_path ≡ 256
      → Returned p (create p path size w)
  create-Returned path size w tame cells = elim (create-open_device p path size w) [
    | inl (e, failed, same) ↦ rw same (refl, cells)
    | inr (inl (made, e, failed, same)) ↦ rw same (refl, cells)
    | inr (inr (made, long, same)) ↦ rw same (open_device-Returned p path _ tame cells)
  ]

  -- The invariant: the array has its size, and the mark counts the disks.
  abbrev pub Exact : Process p → Type 0
  Exact s =
      (length s.world.atad_device_path ≡ 256) × (length s.disks ≡ allowed s.world.is_device_active)

  push-exact :
      (r : Outcome Ps2hdd) (active : Bool) (disks : List Ps2hdd)
      → returns r ≡ true
      → (active ≡ true → is_err r ≡ true)
      → length disks ≡ allowed active
      → length (push p r disks) ≡ allowed (active || not (is_err r))
  push-exact (ok disk) true disks back refused h = ground arith
  push-exact (ok disk) false disks back refused h = ground arith
  push-exact (err e) true disks back refused h = h
  push-exact (err e) false disks back refused h = h
  push-exact (panic e) active disks back refused h = absurd (cc)
  push-exact undefined active disks back refused h = absurd (cc)
  push-exact out_of_fuel active disks back refused h = absurd (cc)

  cells-drop : (w : World p) → (drop p w).1.atad_device_path ≡ w.atad_device_path
  unfolding drop ◌>>=◌
  cells-drop w = ground arith

  active-drop : (w : World p) → (drop p w).1.is_device_active ≡ false
  unfolding drop ◌>>=◌
  active-drop w = ground arith

  Step-Exact : {s t : Process p} → Tame p → Step p s t → Exact s → Exact t
  Step-Exact tame (opened path w disks) (cells, h) =
      let (back, cells') = open_device-Returned p path w tame cells in
      (
        cells',
        rw (active-open_device p path w) (
            push-exact (open_device p path w).0 w.is_device_active disks back
              (open_device-active p path w) h),
      )
  Step-Exact tame (created path size w disks) (cells, h) =
      let (back, cells') = create-Returned path size w tame cells in
      (
        cells',
        rw (active-create p path size w) (
            push-exact (create p path size w).0 w.is_device_active disks back
              (create-active p path size w) h),
      )
  Step-Exact tame (used {self = self} {self' = self'} before after called) (cells, h) =
      let (active, same) = Called-SameStatics p called in
      (ap length same ∙ cells, rw (active, swap_one p before after self self') h)
  Step-Exact tame (dropped self w before after) (cells, h) =
      let (active, rest) = rest_of_one p self before after w.is_device_active (omega arith) in
      (ap length (cells-drop w) ∙ cells, rw (active-drop w) (ap length rest))

  Steps-Exact : {s t : Process p} → Tame p → Steps p s t → Exact s → Exact t
  Steps-Exact tame (none_yet s) h = h
  Steps-Exact tame (next steps step) h = Step-Exact tame step (Steps-Exact tame steps h)

  -- One disk and the mark, or none of both.
  exact-cases :
      (disks : List Ps2hdd) (active : Bool)
      → length disks ≡ allowed active
      → ((active ≡ true) × (self : Ps2hdd) × (disks ≡ self ∷ []))
        ⊎ ((active ≡ false) × (disks ≡ []))
  exact-cases [] true h = absurd (omega arith)
  exact-cases [] false h = inr (refl, refl)
  exact-cases (self ∷ []) true h = inl (refl, self, refl)
  exact-cases (self ∷ d ∷ disks) true h = absurd (omega arith)
  exact-cases (self ∷ disks) false h = absurd (omega arith)

  -- If the results of both driver starts can be negated, no file has an empty name and the array has
  -- 256 bytes at the start, then in every state that a process can reach every `open` returns, and
  -- the device is marked exactly while one disk is alive, and only one is.
  pub Steps-mark :
      {cells : Text} {outside : p.State} {s : Process p}
      → Tame p
      → length cells ≡ 256
      → Steps p (start p cells outside) s
      → ((path : Text) → returns (open_device p path s.world).0 ≡ true)
        × (((s.world.is_device_active ≡ true) × (self : Ps2hdd) × (s.disks ≡ self ∷ []))
            ⊎ ((s.world.is_device_active ≡ false) × (s.disks ≡ [])))
  Steps-mark {s = s} tame size steps =
      let (cells, h) = Steps-Exact tame steps (size, refl) in
      (
        λ path. (open_device-Returned p path s.world tame cells).0,
        exact-cases s.disks s.world.is_device_active h,
      )

-- A disk that is always there to be opened: its file exists, and both drivers start.
pub record IsReady {b : Bindings} (p : Platform b) (path : Text) : Type 0 where
  pub openable : IsOpenable path
  pub there : (s : p.State) → p.is_file path s ≡ true
  pub apa : (cells : Text) (s : p.State) → (p.init_apa cells s).0 ≡ pos 0
  pub pfs : (s : p.State) → (p.init_pfs s).0 ≡ pos 0

module _ {b : Bindings} (p : Platform b) where
  abbrev pub fresh : Text → Ps2hdd
  fresh path = record { path = path; pfs = none; hdlfs = none }

  -- The last step: `open` where no disk is alive.
  open_idle :
      (path : Text) (w : World p) (s : Process p)
      → Tame p
      → IsReady p path
      → length w.atad_device_path ≡ 256
      → w.is_device_active ≡ false
      → Steps p s (record { world = w; disks = [] })
      → (t : Process p) × Steps p s t × (t.disks ≡ fresh path ∷ [])
  open_idle path w s tame ready cells idle steps = (
    record { world = (open_device p path w).1; disks = push p (open_device p path w).0 [] },
    next steps (opened path w []),
    ap (λ (r : Outcome Ps2hdd × World p). push p r.0 [])
        (open_device-opens p path w tame ready.openable idle cells (ready.there w.outside)
          (ready.apa _ _, ready.pfs _)),
  )

  reopen :
      (path : Text) (w : World p) (disks : List Ps2hdd)
      → Tame p
      → IsReady p path
      → Exact p (record { world = w; disks = disks })
      → (t : Process p) × Steps p (record { world = w; disks = disks }) t
        × (t.disks ≡ fresh path ∷ [])
  reopen path w disks tame ready (cells, h) = elim (exact-cases p disks w.is_device_active h) [
    | inl (active, self, one) ↦ rw one (
        open_idle path (drop p w).1 (record { world = w; disks = self ∷ [] }) tame ready
          (ap length (cells-drop p w) ∙ cells) (active-drop p w)
          (next (none_yet _) (dropped self w [] [])))
    | inr (idle, empty) ↦
        rw empty
          (open_idle path w (record { world = w; disks = [] }) tame ready cells idle (none_yet _))
  ]

  -- If the results of both driver starts can be negated, no file has an empty name, the array has
  -- 256 bytes at the start, and a path is always ready to be opened, then whatever a process has
  -- done before, it can still come to have exactly that disk open: a disk that is alive is dropped
  -- first.
  pub Steps-reopen :
      {cells : Text} {outside : p.State} {s : Process p} (path : Text)
      → Tame p
      → IsReady p path
      → length cells ≡ 256
      → Steps p (start p cells outside) s
      → (t : Process p) × Steps p s t × (t.disks ≡ fresh path ∷ [])
  Steps-reopen {s = s} path tame ready size steps =
      reopen path s.world s.disks tame ready (Steps-Exact p tame steps (size, refl))
