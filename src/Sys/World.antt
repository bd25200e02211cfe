-- ===== src/Sys/World.antt =====
-- The program's static variables and the state outside it, and the actions that read and change
-- them: a `Result`, or a panic, comes back with the state that was reached.
pub mod Ends
pub mod Keeps
use ps2hdd_rs.Prelude.{
  ℕ, Bool, true, false, Text, Option, none, some, Outcome, ok, err, panic, undefined, out_of_fuel,
}
use ps2hdd_rs.Sys.Bindings.{Bindings}
use ps2hdd_rs.Sys.Platform.{Platform}

-- `IS_DEVICE_ACTIVE`, `ps2hdd_sys::atad_device_path`, and the rest of the world.
pub record World {b : Bindings} (p : Platform b) : Type 0 where
  pub is_device_active : Bool
  pub atad_device_path : Text
  pub outside : p.State

abbrev pub Io {ℓ} : {b : Bindings} → Platform b → Type ℓ → Type ℓ
Io p A = World p → Outcome A × World p

-- An `Err` is looked at; a panic and the like end the caller too.
abbrev pub caught {ℓ} : {A : Type ℓ} → Outcome A → Outcome (Outcome A)
caught (ok a) = ok (ok a)
caught (err e) = ok (err e)
caught (panic e) = panic e
caught undefined = undefined
caught out_of_fuel = out_of_fuel

module _ {b : Bindings} {p : Platform b} where
  pub pure {ℓ} : {A : Type ℓ} → A → Io p A
  pure a w = (ok a, w)

  pub fail {ℓ} : {A : Type ℓ} → Text → Io p A
  fail e w = (err e, w)

  -- A `Result` in an action.
  pub lift {ℓ} : {A : Type ℓ} → Outcome A → Io p A
  lift r w = (r, w)

  -- A loop that was not run to its end.
  pub exhausted {ℓ} : {A : Type ℓ} → Io p A
  exhausted w = (out_of_fuel, w)

  -- A call that changes the outside.
  pub call {ℓ} : {A : Type ℓ} → (p.State → A × p.State) → Io p A
  call f w = let (a, s) = f w.outside in (ok a, record w { outside = s })

  -- A call with no result.
  pub command : (p.State → p.State) → Io p (Unit {0})
  command f w = (ok tt, record w { outside = f w.outside })

  -- A question about the outside.
  pub query {ℓ} : {A : Type ℓ} → (p.State → A) → Io p A
  query f w = (ok (f w.outside), w)

  -- `IS_DEVICE_ACTIVE.swap(value, ..)`
  pub swap_active : Bool → Io p Bool
  swap_active value w = (ok w.is_device_active, record w { is_device_active = value })

  pub get_device_path : Io p Text
  get_device_path w = (ok w.atad_device_path, w)

  pub set_device_path : Text → Io p (Unit {0})
  set_device_path cells w = (ok tt, record w { atad_device_path = cells })

  abbrev pub continue {ℓ κ} : {A : Type ℓ} {B : Type κ} → Outcome A → (A → Io p B) → Io p B
  continue (ok a) f w = f a w
  continue (err e) f w = (err e, w)
  continue (panic e) f w = (panic e, w)
  continue undefined f w = (undefined, w)
  continue out_of_fuel f w = (out_of_fuel, w)

  infixl 5 ◌>>=◌ ◌>>◌
  -- Opening this opens the actions above too.
  unfoldable pub ◌>>=◌ {ℓ κ} : {A : Type ℓ} {B : Type κ} → Io p A → (A → Io p B) → Io p B
  unfolding pure fail lift exhausted call command query swap_active get_device_path set_device_path
  ◌>>=◌ m f w = let (r, w') = m w in continue r f w'

  abbrev pub ◌>>◌ {ℓ κ} : {A : Type ℓ} {B : Type κ} → Io p A → Io p B → Io p B
  m >> n = m >>= λ _. n

  -- `match action { Ok(..) => .., Err(..) => .. }`: the result as a value.
  unfoldable pub attempt {ℓ} : {A : Type ℓ} → Io p A → Io p (Outcome A)
  unfolding ◌>>=◌
  attempt m w = let (r, w') = m w in (caught r, w')

  abbrev pub handled {ℓ} : {A : Type ℓ} → (Text → Io p A) → Outcome A → Io p A
  handled handler (ok a) = pure a
  handled handler (err e) = handler e
  handled handler (panic e) = lift (panic e)
  handled handler undefined = lift undefined
  handled handler out_of_fuel = lift out_of_fuel

  -- `match result { Ok(a) => a, Err(e) => { handler } }`
  unfoldable pub on_err {ℓ} : {A : Type ℓ} → Outcome A → (Text → Io p A) → Io p A
  unfolding ◌>>=◌
  on_err r handler = handled handler r
