-- ===== src/Scenarios.antt =====
-- The scenarios that the source's test modules run, as programs: what a test does with a result, and
-- how a value with a `Drop` ends with its scope. The messages of panics leave out the values that
-- `expect` and `assert_eq!` print behind the text of the source.
pub mod Directories
pub mod Results
pub mod Reaches
pub mod Host
pub mod Instances
pub mod Disks
pub mod Raw
use ps2hdd_rs.Prelude.{
  ℕ, ◌*◌, Text, bytes, Bool, if◌then◌else◌, Option, none, some, Outcome, ok, err, panic, undefined,
  out_of_fuel,
}
use ps2hdd_rs.Hdd.Types.{Ps2hdd}
use ps2hdd_rs.Hdd.Open.{drop}
use ps2hdd_rs.Sys.Bindings.{Bindings}
use ps2hdd_rs.Sys.Platform.{Platform}
use ps2hdd_rs.Sys.World.{Io, pure, lift, call, ◌>>=◌, ◌>>◌}

module _ {b : Bindings} {p : Platform b} where
  -- The end of a scope: the cleanup runs however the body came back, a panic included.
  pub at_end {ℓ} : {A : Type ℓ} → Outcome A → Io p (Unit {0}) → Io p A
  at_end (ok a) cleanup = cleanup >> pure a
  at_end (err e) cleanup = cleanup >> lift (err e)
  at_end (panic e) cleanup = cleanup >> lift (panic e)
  at_end undefined cleanup = lift undefined
  at_end out_of_fuel cleanup = lift out_of_fuel

  unfoldable pub scoped {ℓ} : {A : Type ℓ} → Io p (Unit {0}) → Io p A → Io p A
  unfolding at_end
  scoped cleanup body w = let (r, w') = body w in at_end r cleanup w'

  -- A panic unwinds: the cleanup runs then, and not otherwise.
  pub at_panic {ℓ} : {A : Type ℓ} → Outcome A → Io p (Unit {0}) → Io p A
  at_panic (panic e) cleanup = cleanup >> lift (panic e)
  at_panic r cleanup = lift r

  unfoldable pub unwinding {ℓ} : {A : Type ℓ} → Io p (Unit {0}) → Io p A → Io p A
  unfolding at_panic
  unwinding cleanup body w = let (r, w') = body w in at_panic r cleanup w'

  -- `if !condition { panic!(message) }`, as `assert!` and `assert_eq!` are.
  unfoldable pub assert : Bool → Text → Io p (Unit {0})
  assert condition message = if condition then pure tt else lift (panic message)

  -- `match result { Ok(a) => a, Err(message) => panic!(message) }`
  unfoldable pub or_panic {ℓ} : {A : Type ℓ} → Outcome A → Io p A
  or_panic (err message) = lift (panic message)
  or_panic r = lift r

  -- `Result::expect` of the host's file system.
  unfoldable pub expect : Option Text → Text → Io p (Unit {0})
  expect none message = pure tt
  expect (some error) message = lift (panic message)

abbrev pub demo_file_size : ℕ
demo_file_size = 6 * 1024 * 1024 * 1024

module _ {b : Bindings} (p : Platform b) where
  -- The end of a `Result<PS2HDD, String>`.
  unfoldable pub drop_result : Outcome Ps2hdd → Io p (Unit {0})
  drop_result (ok disk) = drop p
  drop_result _ = pure tt

  abbrev pub demo_file_path : Text
  demo_file_path = bytes "hdd.img"

  -- `std::fs::remove_file(demo_file_path).expect("could not delete demo file")`
  unfoldable pub remove_demo_file : Io p (Unit {0})
  unfolding expect
  remove_demo_file = do
    removed ← call (p.remove_file demo_file_path)
    expect removed (bytes "could not delete demo file")
