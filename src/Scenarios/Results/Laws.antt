-- ===== src/Scenarios/Results/Laws.antt =====
-- When the tests of C results pass.
use ps2hdd_rs.Prelude.{
  ℤ, pos, negsuc, Text, bytes, ◌++◌, true, false, ◌≡◌, refl, sym, ap, ◌∙◌, ◌↔◌, text_eq,
  text_eq_refl, text_eq→eq, append-cancel_left, Outcome, ok, err, panic, undefined, out_of_fuel,
  ◌>>?◌, inl, inr, arith,
}
use ps2hdd_rs.Ffi.{
  describe, ok_on_pred_or_strerror, ok_on_zero_or_strerror, ok_on_nonnegative_or_strerror,
}
use ps2hdd_rs.Scenarios.Results.{
  assert_eq, returned, return_ok_on_zeroes, return_ok_on_positives, return_err_on_positives,
  return_err_on_negatives,
}
use ps2hdd_rs.Std.Format.{show_int}
use ps2hdd_rs.Std.Utf8.{from_utf8, IsUtf8}
use ps2hdd_rs.Std.Utf8.Laws.{from_utf8-cases, from_utf8-IsUtf8}
use ps2hdd_rs.Sys.Bindings.{Bindings}
use ps2hdd_rs.Sys.Platform.{Platform}

-- Two tests after another pass exactly if both do.
both_pass :
    (first second : Outcome (Unit {0}))
    → ((first >>? λ _. second) ≡ ok tt) ↔ ((first ≡ ok tt) × (second ≡ ok tt))
both_pass (ok tt) second = (λ h. (refl, h), λ (h, k). k)
both_pass (err e) second = (λ h. absurd (cc), λ (h, k). absurd (cc))
both_pass (panic e) second = (λ h. absurd (cc), λ (h, k). absurd (cc))
both_pass undefined second = (λ h. absurd (cc), λ (h, k). absurd (cc))
both_pass out_of_fuel second = (λ h. absurd (cc), λ (h, k). absurd (cc))

assert_eq-err : (d e : Text) → (assert_eq (err d) (err e) ≡ ok tt) ↔ (text_eq d e ≡ true)
unfolding assert_eq
assert_eq-err d e = ground arith

-- The text that the tests expect.
abbrev told : ℤ → Text → Text
told x text = returned ++ (bytes ": " ++ (show_int x ++ (bytes ", " ++ text)))

told-injective : (x : ℤ) {s t : Text} → told x s ≡ told x t → s ≡ t
told-injective x h = append-cancel_left (bytes ", ") (
    append-cancel_left (show_int x)
      (append-cancel_left (bytes ": ") (append-cancel_left returned h)))

-- A message that could not be made is none that the tests expect.
garbled :
    (x : ℤ) (e text : Text)
    → text_eq (bytes "could not convert strerror message a String: " ++ e) (told x text) ≡ false
unfolding text_eq bytes
garbled x e text = refl

described :
    (x : ℤ) (s text : Text)
    → IsUtf8 text
    → (assert_eq (describe returned x (from_utf8 s)) (err (told x text)) ≡ ok tt) ↔ (s ≡ text)
described x s text fine = (
  λ h. elim (from_utf8-cases s) [
    | inl (whole, u) ↦
        let passes : assert_eq (err (told x s)) (err (told x text)) ≡ ok tt = by_whole whole h in
        told-injective x (text_eq→eq _ _ ((assert_eq-err (told x s) (told x text)).0 passes))
    | inr (e, bad) ↦ absurd (
        let same = (assert_eq-err _ (told x text)).0 (by_bad e bad h) in
        let other = garbled x e text in cc)
  ],
  λ same.
      rw (same, from_utf8-IsUtf8 text fine)
        ((assert_eq-err (told x text) (told x text)).1 (text_eq_refl (told x text))),
)
  where
    by_whole :
        from_utf8 s ≡ ok s
        → assert_eq (describe returned x (from_utf8 s)) (err (told x text)) ≡ ok tt
        → assert_eq (err (told x s)) (err (told x text)) ≡ ok tt
    by_whole whole h =
        ap (λ r. assert_eq (describe returned x r) (err (told x text))) (sym whole) ∙ h

    by_bad :
        (e : Text)
        → from_utf8 s ≡ err e
        → assert_eq (describe returned x (from_utf8 s)) (err (told x text)) ≡ ok tt
        → assert_eq
            (err (bytes "could not convert strerror message a String: " ++ e))
            (err (told x text))
          ≡ ok tt
    by_bad e bad h = ap (λ r. assert_eq (describe returned x r) (err (told x text))) (sym bad) ∙ h

module _ {b : Bindings} (p : Platform b) where
  return_ok_on_zeroes_lem : return_ok_on_zeroes p ≡ ok tt
  unfolding return_ok_on_zeroes assert_eq ok_on_zero_or_strerror ok_on_nonnegative_or_strerror
      ok_on_pred_or_strerror
  return_ok_on_zeroes_lem = refl

  return_ok_on_positives_lem : return_ok_on_positives p ≡ ok tt
  unfolding return_ok_on_positives assert_eq ok_on_nonnegative_or_strerror ok_on_pred_or_strerror
  return_ok_on_positives_lem = refl

  return_err_on_positives_iff : (return_err_on_positives p ≡ ok tt) ↔ (
      (p.strerror (pos 1) ≡ bytes "Operation not permitted")
      × (p.strerror (pos 13) ≡ bytes "Permission denied"))
  unfolding return_err_on_positives ok_on_zero_or_strerror ok_on_pred_or_strerror from_utf8 bytes
      show_int
  return_err_on_positives_iff =
      let one = described (negsuc 0) (p.strerror (pos 1)) (bytes "Operation not permitted") refl in
      let two = described (negsuc 12) (p.strerror (pos 13)) (bytes "Permission denied") refl in
      (
        λ h. let (h₁, h₂) = (both_pass _ _).0 h in (one.0 h₁, two.0 h₂),
        λ (h₁, h₂). (both_pass _ _).1 (one.1 h₁, two.1 h₂),
      )

  -- The test `return_err_on_negatives` passes exactly on a system whose `strerror` has its four
  -- texts.
  pub return_err_on_negatives_iff : (return_err_on_negatives p ≡ ok tt) ↔ (
      (p.strerror (pos 1) ≡ bytes "Operation not permitted")
      × (p.strerror (pos 13) ≡ bytes "Permission denied")
      × (p.strerror (pos 5) ≡ bytes "Input/output error")
      × (p.strerror (pos 16) ≡ bytes "Resource busy"))
  unfolding return_err_on_negatives ok_on_zero_or_strerror ok_on_nonnegative_or_strerror
      ok_on_pred_or_strerror from_utf8 bytes show_int
  return_err_on_negatives_iff =
      let one = described (negsuc 0) (p.strerror (pos 1)) (bytes "Operation not permitted") refl in
      let two = described (negsuc 12) (p.strerror (pos 13)) (bytes "Permission denied") refl in
      let three = described (negsuc 4) (p.strerror (pos 5)) (bytes "Input/output error") refl in
      let four = described (negsuc 15) (p.strerror (pos 16)) (bytes "Resource busy") refl in
      (
        λ h.
            let (h₁, rest) = (both_pass _ _).0 h in
            let (h₂, rest') = (both_pass _ _).0 rest in
            let (h₃, h₄) = (both_pass _ _).0 rest' in (one.0 h₁, two.0 h₂, three.0 h₃, four.0 h₄),
        λ (h₁, h₂, h₃, h₄).
            (both_pass _ _).1
              (one.1 h₁, (both_pass _ _).1 (two.1 h₂, (both_pass _ _).1 (three.1 h₃, four.1 h₄))),
      )
