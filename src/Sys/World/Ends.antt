-- ===== src/Sys/World/Ends.antt =====
-- Actions that come to their end, by the way they are built.
use ps2hdd_rs.Prelude.{
  Text, ◌≡◌, refl, Outcome, ok, err, panic, undefined, out_of_fuel, true, is_finished,
}
use ps2hdd_rs.Sys.Bindings.{Bindings}
use ps2hdd_rs.Sys.Platform.{Platform}
use ps2hdd_rs.Sys.World.{World, Io, attempt, query, continue, caught, pure, fail, lift, call, ◌>>=◌}

-- An action that comes to its end in every world.
pub record Ends {ℓ} {b : Bindings} {p : Platform b} {A : Type ℓ} (m : Io p A) : Type 0 where
  pub at : (w : World p) → is_finished (m w).0 ≡ true

caught-finished {ℓ} :
    {A : Type ℓ} (r : Outcome A) → is_finished r ≡ true → is_finished (caught r) ≡ true
caught-finished (ok a) h = refl
caught-finished out_of_fuel h = h
caught-finished _ h = refl

module _ {b : Bindings} {p : Platform b} where
  module _ {ℓ κ} {A : Type ℓ} {B : Type κ} where
    Ends-continue :
        (r : Outcome A) (f : A → Io p B) (w : World p)
        → ((a : A) → Ends (f a))
        → is_finished r ≡ true
        → is_finished (continue r f w).0 ≡ true
    Ends-continue (ok a) f w kf h = (kf a).at w
    Ends-continue (err e) f w kf h = refl
    Ends-continue (panic e) f w kf h = refl
    Ends-continue undefined f w kf h = refl
    Ends-continue out_of_fuel f w kf h = h

    pub Ends-bind : (m : Io p A) (f : A → Io p B) → Ends m → ((a : A) → Ends (f a)) → Ends (m >>= f)
    unfolding ◌>>=◌
    Ends-bind m f km kf = record {
      at = λ w. let (r, w') = m w in Ends-continue r f w' kf (km.at w);
    }

  module _ {ℓ} {A : Type ℓ} where
    pub Ends-pure : (a : A) → Ends (pure {p = p} a)
    unfolding ◌>>=◌
    Ends-pure a = record { at = λ w. refl }

    pub Ends-fail : (e : Text) → Ends (fail {p = p} {A = A} e)
    unfolding ◌>>=◌
    Ends-fail e = record { at = λ w. refl }

    pub Ends-query : (f : p.State → A) → Ends (query {p = p} f)
    unfolding ◌>>=◌
    Ends-query f = record { at = λ w. refl }

    pub Ends-call : (f : p.State → A × p.State) → Ends (call {p = p} f)
    unfolding ◌>>=◌
    Ends-call f = record { at = λ w. refl }

    pub Ends-lift : (r : Outcome A) → is_finished r ≡ true → Ends (lift {p = p} r)
    unfolding ◌>>=◌
    Ends-lift r e = record { at = λ w. e }

    pub Ends-attempt : (m : Io p A) → Ends m → Ends (attempt m)
    unfolding attempt
    Ends-attempt m k = record { at = λ w. let (r, w') = m w in caught-finished r (k.at w) }

pub ruleset end_rules =
    (Ends-pure, Ends-fail, Ends-query, Ends-call, Ends-lift, Ends-attempt, Ends-bind)
