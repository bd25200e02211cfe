-- ===== src/Sys/World/Keeps.antt =====
-- What an action keeps, however it ends: one rule for each way to build an action.
use ps2hdd_rs.Prelude.{
  Bool, true, false, Text, Outcome, ok, err, panic, undefined, out_of_fuel, if◌then◌else◌, ◌≡◌,
}
use ps2hdd_rs.Sys.Bindings.{Bindings}
use ps2hdd_rs.Sys.Platform.{Platform}
use ps2hdd_rs.Sys.World.{
  World, Io, pure, fail, lift, exhausted, call, command, query, attempt, continue, ◌>>=◌,
}

pub record Keeps {ℓ} {b : Bindings} {p : Platform b} {A : Type ℓ} (P : World p → Type 0)
    (m : Io p A) : Type 0 where
  pub at : (w : World p) → P w → P (m w).1

module _ {b : Bindings} {p : Platform b} {P : World p → Type 0} where
  module _ {ℓ} {A : Type ℓ} where
    pub Keeps-pure : (a : A) → Keeps P (pure a)
    unfolding pure
    Keeps-pure a = record { at = λ w h. h }

    pub Keeps-fail : (e : Text) → Keeps P (fail {A = A} e)
    unfolding fail
    Keeps-fail e = record { at = λ w h. h }

    pub Keeps-lift : (r : Outcome A) → Keeps P (lift r)
    unfolding lift
    Keeps-lift r = record { at = λ w h. h }

    pub Keeps-exhausted : Keeps P (exhausted {A = A})
    unfolding exhausted
    Keeps-exhausted = record { at = λ w h. h }

    pub Keeps-query : (f : p.State → A) → Keeps P (query f)
    unfolding query
    Keeps-query f = record { at = λ w h. h }

    pub Keeps-attempt : (m : Io p A) → Keeps P m → Keeps P (attempt m)
    unfolding attempt
    Keeps-attempt m k = record { at = λ w h. k.at w h }

    pub Keeps-if : (c : Bool) (m n : Io p A) → Keeps P m → Keeps P n → Keeps P (if c then m else n)
    Keeps-if true m n km kn = km
    Keeps-if false m n km kn = kn

  module _ {ℓ κ} {A : Type ℓ} {B : Type κ} where
    Keeps-continue :
        (r : Outcome A) (f : A → Io p B)
        → ((a : A) → Keeps P (f a))
        → (w : World p) → P w
        → P (continue r f w).1
    Keeps-continue (ok a) f kf w h = (kf a).at w h
    Keeps-continue (err e) f kf w h = h
    Keeps-continue (panic e) f kf w h = h
    Keeps-continue undefined f kf w h = h
    Keeps-continue out_of_fuel f kf w h = h

    pub Keeps-bind :
        (m : Io p A) (f : A → Io p B) → Keeps P m → ((a : A) → Keeps P (f a)) → Keeps P (m >>= f)
    unfolding ◌>>=◌
    Keeps-bind m f km kf = record {
      at = λ w h. let (r, w') = m w in Keeps-continue r f kf w' (km.at w h);
    }

-- The static variables have these values.
abbrev pub Statics : {b : Bindings} {p : Platform b} → Bool → Text → World p → Type 0
Statics flag cells w = (w.is_device_active ≡ flag) × (w.atad_device_path ≡ cells)

module _ {b : Bindings} {p : Platform b} {flag : Bool} {cells : Text} where
  pub Keeps-call {ℓ} :
      {A : Type ℓ} (f : p.State → A × p.State) → Keeps {p = p} (Statics flag cells) (call f)
  unfolding call
  Keeps-call f = record { at = λ w h. h }

  pub Keeps-command : (f : p.State → p.State) → Keeps {p = p} (Statics flag cells) (command f)
  unfolding command
  Keeps-command f = record { at = λ w h. h }

-- The rules for what stands in a `do` block.
pub ruleset keeps_rules = (
  Keeps-pure, Keeps-fail, Keeps-lift, Keeps-exhausted, Keeps-query, Keeps-attempt, Keeps-if,
  Keeps-call, Keeps-command, Keeps-bind,
)
