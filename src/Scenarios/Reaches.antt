-- ===== src/Scenarios/Reaches.antt =====
-- Actions that come back with a value, one after the other.
use ps2hdd_rs.Prelude.{◌≡◌, ok}
use ps2hdd_rs.Sys.Bindings.{Bindings}
use ps2hdd_rs.Sys.Platform.{Platform}
use ps2hdd_rs.Sys.World.{World, Io, ◌>>=◌}

module _ {b : Bindings} {p : Platform b} where
  -- An action that comes back with a value, the static variables as they were, and the outside in a
  -- state of that kind.
  pub record Reaches {ℓ} {A : Type ℓ} (action : Io p A) (w : World p) (a : A)
      (After : p.State → Type 0) : Type ℓ where
    pub outside : p.State
    pub reached : action w ≡ (ok a, record w { outside = outside })
    pub after : After outside

  pub Reaches-bind {ℓ κ} :
      {A : Type ℓ} {B : Type κ} {m : Io p A} (n : A → Io p B) {w : World p} {a : A} {c : B}
      {P Q : p.State → Type 0}
      → Reaches m w a P
      → ((s : p.State) → P s → Reaches (n a) (record w { outside = s }) c Q)
      → Reaches (m >>= n) w c Q
  unfolding ◌>>=◌
  Reaches-bind n first next =
      let second = next first.outside first.after in
      record {
        outside = second.outside;
        reached = rw (first.reached) second.reached;
        after = second.after;
      }
