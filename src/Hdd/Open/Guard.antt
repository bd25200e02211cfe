-- ===== src/Hdd/Open/Guard.antt =====
-- `IS_DEVICE_ACTIVE` across `PS2HDD::open`, whose comment in the source reads: "In every case that
-- this function can return an Err or panic, EXCEPT the initial check, it MUST reset
-- IS_DEVICE_ACTIVE".
use ps2hdd_rs.Prelude.{
  ℕ, ◌+◌, ◌≡◌, refl, Text, Bool, true, false, not, ◌||◌, Outcome, ok, err, panic, undefined,
  out_of_fuel, is_err, if◌then◌else◌, arith, length, ◌>>?◌, ◌∷◌, [],
}
use ps2hdd_rs.Hdd.Open.{
  release, close_and_release, write_at, write_byte, write_bytes, write_device_path,
  check_device_path, init_drivers, open_marked, open_device,
}
use ps2hdd_rs.Sys.Bindings.{Bindings}
use ps2hdd_rs.Sys.Platform.{Platform}
use ps2hdd_rs.Sys.World.{
  World, Io, pure, lift, call, query, get_device_path, set_device_path, on_err, continue, ◌>>=◌,
}

-- From a world where the device is marked, the mark is taken away exactly by an `Err`.
record Guarded {ℓ} {b : Bindings} {p : Platform b} {A : Type ℓ} (m : Io p A) : Type 0 where
  at : (w : World p) → w.is_device_active ≡ true → (m w).1.is_device_active ≡ not (is_err (m w).0)

module _ {b : Bindings} {p : Platform b} where
  module _ {ℓ κ} {A : Type ℓ} {B : Type κ} where
    Guarded-continue :
        (r : Outcome A) (f : A → Io p B) (w : World p)
        → ((a : A) → Guarded (f a))
        → w.is_device_active ≡ not (is_err r)
        → (continue r f w).1.is_device_active ≡ not (is_err (continue r f w).0)
    Guarded-continue (ok a) f w kf h = (kf a).at w h
    Guarded-continue (err e) f w kf h = h
    Guarded-continue (panic e) f w kf h = h
    Guarded-continue undefined f w kf h = h
    Guarded-continue out_of_fuel f w kf h = h

    Guarded-bind :
        (m : Io p A) (f : A → Io p B) → Guarded m → ((a : A) → Guarded (f a)) → Guarded (m >>= f)
    unfolding ◌>>=◌
    Guarded-bind m f km kf = record {
      at = λ w h. let (r, w') = m w in Guarded-continue r f w' kf (km.at w h);
    }

  module _ {ℓ} {A : Type ℓ} where
    Guarded-pure : (a : A) → Guarded (pure {p = p} a)
    unfolding ◌>>=◌
    Guarded-pure a = record { at = λ w h. h }

    Guarded-query : (f : p.State → A) → Guarded (query {p = p} f)
    unfolding ◌>>=◌
    Guarded-query f = record { at = λ w h. h }

    Guarded-call : (f : p.State → A × p.State) → Guarded (call {p = p} f)
    unfolding ◌>>=◌
    Guarded-call f = record { at = λ w h. h }

    Guarded-lift : (r : Outcome A) → is_err r ≡ false → Guarded (lift {p = p} r)
    unfolding ◌>>=◌
    Guarded-lift r e = record { at = λ w h. rw e h }

    Guarded-if : (c : Bool) (m n : Io p A) → Guarded m → Guarded n → Guarded (if c then m else n)
    Guarded-if true m n km kn = km
    Guarded-if false m n km kn = kn

    Guarded-release : (message : Text) → Guarded (release p {A = A} message)
    unfolding release ◌>>=◌
    Guarded-release message = record { at = λ w h. refl }

    Guarded-close_and_release : (message : Text) → Guarded (close_and_release p {A = A} message)
    unfolding close_and_release ◌>>=◌
    Guarded-close_and_release message = record { at = λ w h. refl }

    Guarded-on_err :
        (r : Outcome A) (handler : Text → Io p A)
        → ((e : Text) → Guarded (handler e))
        → Guarded (on_err r handler)
    unfolding on_err ◌>>=◌
    Guarded-on_err (ok a) handler k = Guarded-pure a
    Guarded-on_err (err e) handler k = k e
    Guarded-on_err (panic e) handler k = record { at = λ w h. h }
    Guarded-on_err undefined handler k = record { at = λ w h. h }
    Guarded-on_err out_of_fuel handler k = record { at = λ w h. h }

  Guarded-get_device_path : Guarded (get_device_path {p = p})
  unfolding ◌>>=◌
  Guarded-get_device_path = record { at = λ w h. h }

  Guarded-set_device_path : (cells : Text) → Guarded (set_device_path {p = p} cells)
  unfolding ◌>>=◌
  Guarded-set_device_path cells = record { at = λ w h. h }

ruleset guard_rules = (
  Guarded-pure, Guarded-query, Guarded-call, Guarded-lift, Guarded-if, Guarded-release,
  Guarded-close_and_release, Guarded-on_err, Guarded-get_device_path, Guarded-set_device_path,
  Guarded-bind,
)

>>?-no_err :
    (r : Outcome Text) (f : Text → Outcome Text)
    → is_err r ≡ false
    → ((cells : Text) → is_err (f cells) ≡ false)
    → is_err (r >>? f) ≡ false
>>?-no_err (ok cells) f h k = k cells
>>?-no_err (err e) f h k = h
>>?-no_err (panic e) f h k = h
>>?-no_err undefined f h k = h
>>?-no_err out_of_fuel f h k = h

write_at-no_err : (index value : ℕ) (cells : Text) → is_err (write_at index value cells) ≡ false
unfolding write_at
write_at-no_err index value cells = ground arith

write_byte-no_err :
    (length index byte : ℕ) (cells : Text) → is_err (write_byte length index byte cells) ≡ false
unfolding write_byte
write_byte-no_err length index byte cells = ground arith

write_bytes-no_err :
    (length index : ℕ) (name cells : Text) → is_err (write_bytes length index name cells) ≡ false
unfolding write_bytes
write_bytes-no_err length index [] cells = refl
write_bytes-no_err length index (byte ∷ name) cells =
    >>?-no_err (write_byte length index byte cells) _ (write_byte-no_err length index byte cells)
      (λ cells'. write_bytes-no_err length (index + 1) name cells')

module _ {b : Bindings} (p : Platform b) where
  write_device_path-Guarded : (name : Text) → Guarded (write_device_path p name)
  unfolding write_device_path
  write_device_path-Guarded name = search (guard_rules, write_bytes-no_err)

  check_device_path-Guarded : (path : Text) → Guarded (check_device_path p path)
  unfolding check_device_path
  check_device_path-Guarded path = search guard_rules

  init_drivers-Guarded : Guarded (init_drivers p)
  unfolding init_drivers
  init_drivers-Guarded = search guard_rules depth 9

  open_marked-Guarded : (path : Text) → Guarded (open_marked p path)
  unfolding open_marked
  open_marked-Guarded path =
      search
        (guard_rules, write_device_path-Guarded, check_device_path-Guarded, init_drivers-Guarded)
        depth 9

  -- Whatever the path and the drivers do, after `open` the device is marked as active if it was so
  -- before, or if `open` did not return an `Err`; otherwise it is not.
  pub active-open_device :
      (path : Text) (w : World p)
      → (open_device p path w).1.is_device_active
        ≡ (w.is_device_active || not (is_err (open_device p path w).0))
  unfolding open_device ◌>>=◌
  active-open_device path w =
      ground (arith, (open_marked-Guarded path).at (record w { is_device_active = true }) refl)
