-- ===== src/Scenarios/Host.antt =====
-- What the scenarios ask of the machine that they run on: a directory where files can be made, and
-- drivers that start on a disk image.
use ps2hdd_rs.Prelude.{ℕ, ◌≡◌, refl, ◌∙◌, true, false, Text, none, ok, length, Bool, inl, inr, pos}
use ps2hdd_rs.Hdd.Types.{Ps2hdd}
use ps2hdd_rs.Hdd.Open.{open_device, create, drop}
use ps2hdd_rs.Hdd.Open.Creation.{create-open_device}
use ps2hdd_rs.Hdd.Open.Refines.{written}
use ps2hdd_rs.Hdd.Open.Refines.Returns.{
  Tame, IsOpenable, Starts, opened_world, open_device-opens, length-opened_world,
}
use ps2hdd_rs.Sys.Bindings.{Bindings}
use ps2hdd_rs.Sys.Platform.{Platform}
use ps2hdd_rs.Scenarios.{demo_file_path, remove_demo_file, expect}
use ps2hdd_rs.Sys.World.{World, Io, ◌>>=◌}

-- `There` says that the image is on the host, closed or open; the calls below keep it there, until
-- the file is removed.
pub record Host {b : Bindings} (p : Platform b) (path : Text) : Type 1 where
  pub tame : Tame p
  pub openable : IsOpenable path
  pub There : p.State → Type 0
  pub created : (s : p.State) → (p.file_create path s).0 ≡ none
  pub extended :
      (size : ℕ) (s : p.State)
      → let (error, s') = p.set_len path size (p.file_create path s).1 in (error ≡ none) × There s'
  pub is_there : (s : p.State) → There s → p.is_file path s ≡ true
  pub apa :
      (cells : Text) (s : p.State)
      → There s
      → let (result, s') = p.init_apa cells s in (result ≡ pos 0) × There s'
  pub pfs : (s : p.State) → There s → let (result, s') = p.init_pfs s in (result ≡ pos 0) × There s'
  pub closed : (s : p.State) → There s → There (p.atad_close s)
  pub removed : (s : p.State) → There s → (p.remove_file path s).0 ≡ none

module _ {b : Bindings} {p : Platform b} {path : Text} (host : Host p path) where
  -- The worlds of a scenario: the mark as it is said, the image there.
  pub record Running (active : Bool) (w : World p) : Type 0 where
    pub mark : w.is_device_active ≡ active
    pub size : length w.atad_device_path ≡ 256
    pub image : host.There w.outside

  abbrev pub disk : Ps2hdd
  disk = record { path = path; pfs = none; hdlfs = none }

  host-Starts : (w : World p) → host.There w.outside → Starts p path w
  host-Starts w there =
      let (zero, there') = host.apa (written path w.atad_device_path) w.outside there in
      (zero, (host.pfs _ there').0)

  -- `open` gives a disk while none is open.
  pub open_device-Running :
      (w : World p)
      → Running false w
      → (w' : World p) × (open_device p path w ≡ (ok disk, w')) × Running true w'
  open_device-Running w run =
      let (zero, there') = host.apa (written path w.atad_device_path) w.outside run.image in
      let (zero', there'') = host.pfs _ there' in
      (
        opened_world p path w,
        open_device-opens p path w host.tame host.openable run.mark run.size
            (host.is_there w.outside run.image) (zero, zero'),
        record {
          mark = refl;
          size = length-opened_world p path w host.openable run.size;
          image = there'';
        },
      )

  -- So does `create`.
  pub create-Running :
      (size : ℕ) (w : World p)
      → w.is_device_active ≡ false
      → length w.atad_device_path ≡ 256
      → (w' : World p) × (create p path size w ≡ (ok disk, w')) × Running true w'
  create-Running size w idle cells = elim (create-open_device p path size w) [
    | inl (e, failed, same) ↦ absurd (let made = host.created w.outside in cc)
    | inr (inl (made, e, failed, same)) ↦ absurd (let long = (host.extended size w.outside).0 in cc)
    | inr (inr (made, long, same)) ↦
        let (w', opens, run) =
          open_device-Running _
            (record { mark = idle; size = cells; image = (host.extended size w.outside).1 }) in
        (w', same ∙ opens, run)
  ]

  -- The world behind a `drop`.
  abbrev pub dropped_world : World p → World p
  dropped_world w = record {
    is_device_active = false;
    atad_device_path = w.atad_device_path;
    outside = p.atad_close w.outside;
  }

  pub drop-active : (w : World p) → w.is_device_active ≡ true → drop p w ≡ (ok tt, dropped_world w)
  unfolding drop ◌>>=◌
  drop-active w active = rw active

  pub drop-Running :
      (w : World p)
      → Running true w
      → (drop p w ≡ (ok tt, dropped_world w)) × Running false (dropped_world w)
  drop-Running w run = (
    drop-active w run.mark,
    record { mark = refl; size = run.size; image = host.closed w.outside run.image },
  )

module _ {b : Bindings} (p : Platform b) where
  -- A world in which the scenario has passed, and the mark is gone.
  abbrev pub Passes : Io p (Unit {0}) → World p → Type 0
  Passes scenario w = ((scenario w).0 ≡ ok tt) × ((scenario w).1.is_device_active ≡ false)

  pub remove_demo_file_lem :
      (w : World p)
      → (p.remove_file (demo_file_path p) w.outside).0 ≡ none
      → remove_demo_file p w
        ≡ (ok tt, record w { outside = (p.remove_file (demo_file_path p) w.outside).1 })
  unfolding remove_demo_file expect ◌>>=◌
  remove_demo_file_lem w e = rw e
