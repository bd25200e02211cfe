-- ===== src/Scenarios/Instances.antt =====
-- ps2hdd/src/lib.rs: the tests `only_one_instance_allowed` and `should_err_on_missing_file`.
pub mod Laws
use ps2hdd_rs.Prelude.{
  Text, bytes, ◌++◌, Bool, true, false, text_eq, is_ok, Outcome, ok, err, panic, undefined,
  out_of_fuel,
}
use ps2hdd_rs.Hdd.Types.{Ps2hdd}
use ps2hdd_rs.Hdd.Open.{open_device, create, drop}
use ps2hdd_rs.Scenarios.{
  scoped, unwinding, assert, drop_result, demo_file_path, demo_file_size, remove_demo_file,
}
use ps2hdd_rs.Sys.Bindings.{Bindings}
use ps2hdd_rs.Sys.Platform.{Platform}
use ps2hdd_rs.Sys.World.{Io, pure, lift, attempt, ◌>>=◌, ◌>>◌}

module _ {b : Bindings} (p : Platform b) where
  -- `assert_eq!(instance.unwrap_err(), "Only one ..", message)`: a disk in the result ends there.
  refused : Outcome Ps2hdd → Text → Io p (Unit {0})
  refused (ok disk) message =
      drop p >> lift (panic (bytes "called `Result::unwrap_err()` on an `Ok` value"))
  refused (err e) message =
      assert (text_eq e (bytes "Only one PS2HDD instance may be mounted at a time")) message
  refused (panic e) message = lift (panic e)
  refused undefined message = lift undefined
  refused out_of_fuel message = lift out_of_fuel

  -- What follows a first construction that gave a disk, with the results of the other two.
  with_instance : Outcome Ps2hdd → Outcome Ps2hdd → Io p (Unit {0})
  unfolding refused
  with_instance instance_2 instance_3 = do
    unwinding (drop_result p instance_3) (
        unwinding (drop p)
          (refused instance_2 (bytes "Second construction didn't return an error")))
    unwinding (drop p) (refused instance_3 (bytes "Third construction didn't return an error"))
    drop p
    instance_4 ← attempt (open_device p (demo_file_path p))
    scoped (drop_result p instance_4) (do
      assert (is_ok instance_4) (bytes "Fourth construction should've been okay")
      remove_demo_file p)

  -- `show` is `{:?}` of the message. The results that are not looked at end in the reverse order.
  judge_instances :
      (Text → Text) → Outcome Ps2hdd → Outcome Ps2hdd → Outcome Ps2hdd → Io p (Unit {0})
  judge_instances show (ok instance) instance_2 instance_3 = with_instance instance_2 instance_3
  judge_instances show (err message) instance_2 instance_3 = do
    drop_result p instance_3
    drop_result p instance_2
    lift (panic (bytes "First construction should've been okay, instead got " ++ show message))
  judge_instances show _ instance_2 instance_3 = lift undefined

  unfoldable pub only_one_instance_allowed : (Text → Text) → Io p (Unit {0})
  unfolding judge_instances with_instance
  only_one_instance_allowed show = do
    instance_1 ← attempt (create p (demo_file_path p) demo_file_size)
    instance_2 ← unwinding (drop_result p instance_1) (attempt (open_device p (demo_file_path p)))
    instance_3 ←
        unwinding (drop_result p instance_1)
          (unwinding (drop_result p instance_2) (attempt (open_device p (demo_file_path p))))
    judge_instances show instance_1 instance_2 instance_3

  abbrev pub nonexistent_file_path : Text
  nonexistent_file_path = bytes "nonexistent.img"

  judge_missing : Outcome Ps2hdd → Io p (Unit {0})
  judge_missing (ok instance) =
      drop p
      >> lift (panic (bytes "First construction should've been okay, instead got an instance"))
  judge_missing (err err_message) =
      assert (text_eq err_message (bytes "nonexistent.img: No such file"))
        (bytes "Construction without file didn't return an error")
  judge_missing _ = lift undefined

  unfoldable pub should_err_on_missing_file : Io p (Unit {0})
  unfolding judge_missing
  should_err_on_missing_file = do
    result ← attempt (open_device p nonexistent_file_path)
    judge_missing result
