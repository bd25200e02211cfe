-- ===== src/Ffi/Laws.antt =====
-- When a C result is `Ok`, when the wrapper panics, and what its message tells.
use ps2hdd_rs.Prelude.{
  ℤ, pos, ◌≡◌, refl, sym, ap, ◌∙◌, ◌↔◌, Bool, true, false, Text, bytes, ◌++◌, ok, is_ok, returns,
  Bool-cases, neg, is_i32_min, is_nonzero, is_negative, arith, ◌&&◌, append-cancel_left, inl, inr,
  ◌⊎◌, ◌≢◌, Outcome, err, panic, undefined, out_of_fuel,
}
use ps2hdd_rs.Std.Format.{show_int, read_int}
use ps2hdd_rs.Std.Format.Laws.{NoDigit, read_int-show_int}
use ps2hdd_rs.Std.Utf8.{from_utf8}
use ps2hdd_rs.Std.Utf8.Laws.{from_utf8-cases}
use ps2hdd_rs.Ffi.{
  describe, ok_on_pred_or_strerror, ok_on_zero_or_strerror, ok_on_nonnegative_or_strerror,
}
use ps2hdd_rs.Sys.Bindings.{Bindings}
use ps2hdd_rs.Sys.Platform.{Platform}

module _ {b : Bindings} (p : Platform b) where
  -- A result that can be negated, or whose negation wraps.
  abbrev pub Negatable : ℤ → Type 0
  Negatable result = (p.overflow_checks && is_i32_min result) ≡ false

  -- The message of a C result that is an error.
  abbrev pub message : Text → ℤ → Text → Text
  message err_message result text =
      err_message ++ (bytes ": " ++ (show_int result ++ (bytes ", " ++ text)))

  describe-not_ok : (m : Text) (x : ℤ) (s : Text) → is_ok (describe m x (from_utf8 s)) ≡ false
  describe-not_ok m x s = elim (from_utf8-cases s) [ inl (e, u) ↦ rw e | inr (t, e) ↦ rw e ]

  describe-returns : (m : Text) (x : ℤ) (s : Text) → returns (describe m x (from_utf8 s)) ≡ true
  describe-returns m x s = elim (from_utf8-cases s) [ inl (e, u) ↦ rw e | inr (t, e) ↦ rw e ]

  ok_on_pred_inv :
      (x r : ℤ) (m : Text) (f : ℤ → Bool)
      → ok_on_pred_or_strerror p x m f ≡ ok r
      → (f x ≡ false) × (r ≡ x)
  unfolding ok_on_pred_or_strerror
  ok_on_pred_inv x r m f h =
      ground (arith, describe-not_ok m x (p.strerror x), describe-not_ok m x (p.strerror (neg x)))

  pub ok_on_pred_of_false :
      (x : ℤ) (m : Text) (f : ℤ → Bool) → f x ≡ false → ok_on_pred_or_strerror p x m f ≡ ok x
  unfolding ok_on_pred_or_strerror
  ok_on_pred_of_false x m f h = rw h

  zero_of : (x : ℤ) → is_nonzero x ≡ false → x ≡ pos 0
  zero_of x h = ground arith

  -- `ok_on_zero_or_strerror` is `Ok` for 0 alone, and then gives it back.
  pub ok_on_zero_iff :
      (x r : ℤ) (m : Text) → (ok_on_zero_or_strerror p x m ≡ ok r) ↔ ((x ≡ pos 0) × (r ≡ pos 0))
  unfolding ok_on_zero_or_strerror
  ok_on_zero_iff x r m = (
    λ h.
        let (zero, same) = ok_on_pred_inv x r m (λ ret. is_nonzero ret) h in
        (zero_of x zero, same ∙ zero_of x zero),
    λ (zero, same). rw (zero, same) (ok_on_pred_of_false (pos 0) m (λ ret. is_nonzero ret) refl),
  )

  -- `ok_on_nonnegative_or_strerror` is `Ok` for what is not negative, and then gives it back.
  pub ok_on_nonnegative_iff :
      (x r : ℤ) (m : Text)
      → (ok_on_nonnegative_or_strerror p x m ≡ ok r) ↔ ((is_negative x ≡ false) × (r ≡ x))
  unfolding ok_on_nonnegative_or_strerror
  ok_on_nonnegative_iff x r m = (
    ok_on_pred_inv x r m (λ ret. is_negative ret),
    λ (fine, same). rw same (ok_on_pred_of_false x m (λ ret. is_negative ret) fine),
  )

  -- The wrapper returns for every test, but for `c_int::MIN` in a build that checks for overflow.
  pub ok_on_pred-returns :
      (x : ℤ) (m : Text) (f : ℤ → Bool)
      → Negatable x
      → returns (ok_on_pred_or_strerror p x m f) ≡ true
  unfolding ok_on_pred_or_strerror
  ok_on_pred-returns x m f h =
      ground (arith, describe-returns m x (p.strerror x), describe-returns m x (p.strerror (neg x)))

module _ {b : Bindings} (p : Platform b) where
  Outcome_of_returns :
      {A : Type 0} (r : Outcome A)
      → returns r ≡ true
      → ((a : A) × (r ≡ ok a)) ⊎ ((e : Text) × (r ≡ err e))
  Outcome_of_returns (ok a) h = inl (a, refl)
  Outcome_of_returns (err e) h = inr (e, refl)
  Outcome_of_returns (panic e) h = absurd (cc)
  Outcome_of_returns undefined h = absurd (cc)
  Outcome_of_returns out_of_fuel h = absurd (cc)

  -- The two ways in which a call that should give 0 comes back.
  pub ok_on_zero-cases :
      (x : ℤ) (m : Text)
      → Negatable p x
      → ((x ≡ pos 0) × (ok_on_zero_or_strerror p x m ≡ ok x))
        ⊎ ((x ≢ pos 0) × (e : Text) × (ok_on_zero_or_strerror p x m ≡ err e))
  ok_on_zero-cases x m fine =
      let total : returns (ok_on_zero_or_strerror p x m) ≡ true =
        unfold ok_on_zero_or_strerror in ok_on_pred-returns p x m (λ ret. is_nonzero ret) fine in
      elim (Outcome_of_returns (ok_on_zero_or_strerror p x m) total) [
        | inl (r, e) ↦
            let (zero, same) = (ok_on_zero_iff p x r m).0 e in
            inl (zero, e ∙ ap ok (same ∙ sym zero))
        | inr (t, e) ↦
            inr (λ zero. let fine' = (ok_on_zero_iff p x (pos 0) m).1 (zero, refl) in cc, t, e)
      ]

  -- The two ways in which a call that should not be negative comes back.
  pub ok_on_nonnegative-cases :
      (x : ℤ) (m : Text)
      → Negatable p x
      → ((is_negative x ≡ false) × (ok_on_nonnegative_or_strerror p x m ≡ ok x))
        ⊎ ((is_negative x ≡ true) × (e : Text) × (ok_on_nonnegative_or_strerror p x m ≡ err e))
  ok_on_nonnegative-cases x m fine =
      let total : returns (ok_on_nonnegative_or_strerror p x m) ≡ true =
        unfold ok_on_nonnegative_or_strerror in
        ok_on_pred-returns p x m (λ ret. is_negative ret) fine in
      elim (Outcome_of_returns (ok_on_nonnegative_or_strerror p x m) total) [
        | inl (r, e) ↦
            let (plain, same) = (ok_on_nonnegative_iff p x r m).0 e in inl (plain, e ∙ ap ok same)
        | inr (t, e) ↦ elim (Bool-cases (is_negative x)) [
          | inl below ↦ inr (below, t, e)
          | inr plain ↦ absurd (let good = (ok_on_nonnegative_iff p x x m).1 (plain, refl) in cc)
        ]
      ]

comma-NoDigit : (t : Text) → NoDigit (bytes ", " ++ t)
unfolding bytes
comma-NoDigit t = refl

-- The message tells the result: two results with one message are the same.
pub message-injective :
    (m : Text) (x y : ℤ) (s t : Text)
    → m ++ (bytes ": " ++ (show_int x ++ (bytes ", " ++ s)))
      ≡ m ++ (bytes ": " ++ (show_int y ++ (bytes ", " ++ t)))
    → x ≡ y
message-injective m x y s t e =
    let numbers = append-cancel_left (bytes ": ") (append-cancel_left m e) in
    let same =
      sym (read_int-show_int x (bytes ", " ++ s) (comma-NoDigit s))
      ∙ ap read_int numbers
      ∙ read_int-show_int y (bytes ", " ++ t) (comma-NoDigit t) in
    ap (λ (r : ℤ × Text). r.0) same
