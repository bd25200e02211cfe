-- ===== src/Scenarios/Instances/Laws.antt =====
-- The scenarios on one disk at a time, run from their start to their end.
use ps2hdd_rs.Prelude.{◌≡◌, refl, true, false, Text, bytes, ok, err, length, text_eq, text_eq_refl}
use ps2hdd_rs.Hdd.Open.Refines.Returns.{open_device-refuses, open_device-missing}
use ps2hdd_rs.Scenarios.{demo_file_size, demo_file_path, drop_result, scoped, unwinding, assert}
use ps2hdd_rs.Scenarios.Host.{
  Passes, remove_demo_file_lem, Host, Running, open_device-Running, create-Running, dropped_world,
  drop-active, drop-Running,
}
use ps2hdd_rs.Scenarios.Instances.{
  nonexistent_file_path, refused, with_instance, only_one_instance_allowed,
  should_err_on_missing_file,
}
use ps2hdd_rs.Std.Utf8.{from_utf8_lossy}
use ps2hdd_rs.Sys.Bindings.{Bindings}
use ps2hdd_rs.Sys.Platform.{Platform}
use ps2hdd_rs.Sys.World.{World, attempt, ◌>>=◌}

module _ {b : Bindings} (p : Platform b) where
  abbrev refusal : Text
  refusal = bytes "Only one PS2HDD instance may be mounted at a time"

  refused-refusal : (message : Text) (w : World p) → refused p (err refusal) message w ≡ (ok tt, w)
  unfolding refused assert ◌>>=◌
  refused-refusal message w = rw (text_eq_refl refusal)

  module _ (host : Host p (demo_file_path p)) where
    with_instance-Passes :
        (w : World p)
        → Running host true w
        → Passes p (with_instance p (err refusal) (err refusal)) w
    unfolding with_instance unwinding scoped drop_result assert attempt ◌>>=◌
    with_instance-Passes w run =
        let (drops, idle) = drop-Running host w run in
        let (w₄, opens, run₄) = open_device-Running host (dropped_world host w) idle in
        let removed : World p = record w₄ {
          outside = (p.remove_file (demo_file_path p) w₄.outside).1;
        } in
        let e = remove_demo_file_lem p w₄ (host.removed w₄.outside run₄.image) in
        rw (refused-refusal (bytes "Second construction didn't return an error") w) (
          rw (refused-refusal (bytes "Third construction didn't return an error") w)
            (rw drops (rw opens (rw e (rw (drop-active host removed run₄.mark) (refl, refl))))))

    -- Where no disk is open, with an array of 256 bytes, on a machine that can make the image and
    -- whose drivers start on it, `only_one_instance_allowed` comes to its end with no panic: the
    -- first disk opens, the second and the third are refused with the message of the test, the
    -- fourth opens once the first is dropped. No disk is left marked.
    pub only_one_instance_allowed-Passes :
        (show : Text → Text) (w : World p)
        → w.is_device_active ≡ false
        → length w.atad_device_path ≡ 256
        → Passes p (only_one_instance_allowed p show) w
    unfolding only_one_instance_allowed unwinding attempt ◌>>=◌
    only_one_instance_allowed-Passes show w idle size =
        let (w₁, creates, run) = create-Running host demo_file_size w idle size in
        rw creates (
          rw (open_device-refuses p (demo_file_path p) w₁ run.mark) (
            rw (open_device-refuses p (demo_file_path p) w₁ run.mark)
              (with_instance-Passes w₁ run)))

  -- Where no disk is open and there is no such file, `should_err_on_missing_file` comes to its end
  -- with no panic: the message is the one that the test asks for.
  should_err_on_missing_file-Passes :
      (w : World p)
      → w.is_device_active ≡ false
      → p.is_file (nonexistent_file_path p) w.outside ≡ false
      → Passes p (should_err_on_missing_file p) w
  unfolding should_err_on_missing_file assert attempt from_utf8_lossy bytes text_eq ◌>>=◌
  should_err_on_missing_file-Passes w idle missing =
      rw (open_device-missing p (nonexistent_file_path p) w idle missing) (refl, idle)
