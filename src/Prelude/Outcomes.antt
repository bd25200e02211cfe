-- ===== src/Prelude/Outcomes.antt =====
-- How a piece of the program ends.
use mathlib.Core.Path.{◌≡◌, refl}
use mathlib.Core.Bool.{Bool, true, false}
use ps2hdd_rs.Prelude.Lists.{Text}

-- `Ok`, `Err` with the message, a panic with its message, and two ends that the source does not
-- name: `undefined` is undefined behaviour of unsafe code, and `out_of_fuel` is a loop that was not
-- run to its end.
pub data Outcome {ℓ} (A : Type ℓ) : Type ℓ where
  ok : A → Outcome A
  err : Text → Outcome A
  panic : Text → Outcome A
  undefined : Outcome A
  out_of_fuel : Outcome A

-- The `?` operator: what is not `Ok` ends the function.
infixl 5 ◌>>?◌
abbrev pub ◌>>?◌ {ℓ κ} : {A : Type ℓ} {B : Type κ} → Outcome A → (A → Outcome B) → Outcome B
ok a >>? f = f a
err e >>? f = err e
panic e >>? f = panic e
undefined >>? f = undefined
out_of_fuel >>? f = out_of_fuel

-- `result.map_err(f)`
abbrev pub map_err {ℓ} : {A : Type ℓ} → (Text → Text) → Outcome A → Outcome A
map_err f (ok a) = ok a
map_err f (err e) = err (f e)
map_err f (panic e) = panic e
map_err f undefined = undefined
map_err f out_of_fuel = out_of_fuel

abbrev pub is_ok {ℓ} : {A : Type ℓ} → Outcome A → Bool
is_ok (ok a) = true
is_ok _ = false

abbrev pub is_err {ℓ} : {A : Type ℓ} → Outcome A → Bool
is_err (err e) = true
is_err _ = false

-- `Ok` or `Err`: the function came back to its caller.
abbrev pub returns {ℓ} : {A : Type ℓ} → Outcome A → Bool
returns (ok a) = true
returns (err e) = true
returns _ = false

-- A chain that gives a value got one from its first part.
pub >>?-eq-ok {ℓ κ} :
    {A : Type ℓ} {B : Type κ} (r : Outcome A) (f : A → Outcome B) {b : B}
    → (r >>? f) ≡ ok b
    → (a : A) × (r ≡ ok a) × (f a ≡ ok b)
>>?-eq-ok (ok a) f h = (a, refl, h)
>>?-eq-ok (err e) f h = absurd (cc)
>>?-eq-ok (panic e) f h = absurd (cc)
>>?-eq-ok undefined f h = absurd (cc)
>>?-eq-ok out_of_fuel f h = absurd (cc)

pub >>?_assoc {ℓ κ μ} :
    {A : Type ℓ} {B : Type κ} {C : Type μ} (r : Outcome A) (f : A → Outcome B) (g : B → Outcome C)
    → ((r >>? f) >>? g) ≡ (r >>? λ a. f a >>? g)
>>?_assoc (ok a) f g = refl
>>?_assoc (err e) f g = refl
>>?_assoc (panic e) f g = refl
>>?_assoc undefined f g = refl
>>?_assoc out_of_fuel f g = refl

pub >>?-cong {ℓ κ} :
    {A : Type ℓ} {B : Type κ} (r : Outcome A) (f g : A → Outcome B)
    → ((a : A) → f a ≡ g a)
    → (r >>? f) ≡ (r >>? g)
>>?-cong (ok a) f g h = h a
>>?-cong (err e) f g h = refl
>>?-cong (panic e) f g h = refl
>>?-cong undefined f g h = refl
>>?-cong out_of_fuel f g h = refl

-- The code was run to its end.
abbrev pub is_finished {ℓ} : {A : Type ℓ} → Outcome A → Bool
is_finished out_of_fuel = false
is_finished _ = true
