-- ===== src/Driver/Missing.antt =====
-- When `create_dir_all` climbs: the test of the message of `mkdir`.
use ps2hdd_rs.Prelude.{
  ℕ, suc, ℤ, pos, negsuc, Text, bytes, ◌++◌, ◌≡◌, ◌↔◌, refl, sym, ap, ◌∙◌, Outcome, ok, err, ◌>>?◌,
  Bool, false, text_eq, text_eq_refl, text_eq→eq, arith, Bool-cases, inl, inr, is_i32_min,
}
use ps2hdd_rs.Driver.{climb, missing_parent, first_verdict}
use ps2hdd_rs.Ffi.{ok_on_nonnegative_or_strerror}
use ps2hdd_rs.Ffi.Laws.{Negatable, message-injective}
use ps2hdd_rs.Std.Format.{show_int}
use ps2hdd_rs.Std.Utf8.{IsUtf8}
use ps2hdd_rs.Std.Utf8.Laws.{from_utf8-IsUtf8}
use ps2hdd_rs.Sys.Bindings.{Bindings}
use ps2hdd_rs.Sys.Platform.{Platform}

-- `strerror` gives text, and the usual text for `ENOENT`.
pub record StandardErrors {b : Bindings} (p : Platform b) : Type 0 where
  pub is_text : (x : ℤ) → IsUtf8 (p.strerror x)
  pub no_entry : p.strerror (pos 2) ≡ bytes "No such file or directory"

abbrev pub told : ℤ → Text → Text
told x t = bytes "failed to create directory" ++ (bytes ": " ++ (show_int x ++ (bytes ", " ++ t)))

missing_parent-told : missing_parent ≡ told (negsuc 1) (bytes "No such file or directory")
unfolding show_int bytes
missing_parent-told = refl

pub told-climbs :
    (x : ℤ) (t : Text) (is_dir : Bool)
    → first_verdict (err (told x t)) is_dir ≡ climb
    → x ≡ negsuc 1
unfolding first_verdict
told-climbs x t is_dir h = elim (Bool-cases (text_eq (told x t) missing_parent)) [
  | inl same ↦
      message-injective (bytes "failed to create directory") x (negsuc 1) t
        (bytes "No such file or directory")
        (text_eq→eq (told x t) missing_parent same ∙ missing_parent-told)
  | inr other ↦ absurd (ground arith)
]

module _ {b : Bindings} (p : Platform b) where
  -- What `create_dir_impl` returns for a result of `mkdir`.
  abbrev pub created : ℤ → Outcome (Unit {0})
  created result =
      ok_on_nonnegative_or_strerror p result (bytes "failed to create directory") >>? λ _. ok tt

  -- A negative result is told by its message.
  pub error_told :
      (n : ℕ)
      → StandardErrors p
      → Negatable p (negsuc n)
      → (t : Text) × (created (negsuc n) ≡ err (told (negsuc n) t))
  unfolding ok_on_nonnegative_or_strerror
  error_told n std fine = elim (Bool-cases (is_i32_min (negsuc n))) [
    | inl least ↦
        let unchecked : p.overflow_checks ≡ false = ground arith in
        (p.strerror (negsuc n), rw (least, unchecked, from_utf8-IsUtf8 _ (std.is_text (negsuc n))))
    | inr other ↦
        (p.strerror (pos (suc n)), rw (other, from_utf8-IsUtf8 _ (std.is_text (pos (suc n)))))
  ]

  pub no_entry-climbs :
      (is_dir : Bool) → StandardErrors p → first_verdict (created (negsuc 1)) is_dir ≡ climb
  unfolding ok_on_nonnegative_or_strerror first_verdict
  no_entry-climbs is_dir std = rw (
    from_utf8-IsUtf8 _ (std.is_text (pos 2)),
    std.no_entry,
    ← missing_parent-told,
    text_eq_refl missing_parent,
  )

  negative-climb_iff :
      (n : ℕ) (is_dir : Bool)
      → StandardErrors p
      → Negatable p (negsuc n)
      → (first_verdict (created (negsuc n)) is_dir ≡ climb) ↔ (negsuc n ≡ negsuc 1)
  negative-climb_iff n is_dir std fine =
      let (t, e) = error_told n std fine in
      (
        λ h. told-climbs (negsuc n) t is_dir (ap (λ r. first_verdict r is_dir) (sym e) ∙ h),
        λ same. rw same (no_entry-climbs is_dir std),
      )

  -- If `strerror` gives text, and the usual one for `ENOENT`, and the result can be negated, the
  -- test of a message against a literal is a test of the number: the parents are made exactly if
  -- `mkdir` returned -2.
  pub first_verdict-climb_iff :
      (result : ℤ) (is_dir : Bool)
      → StandardErrors p
      → Negatable p result
      → (first_verdict (created result) is_dir ≡ climb) ↔ (result ≡ negsuc 1)
  unfolding ok_on_nonnegative_or_strerror first_verdict
  first_verdict-climb_iff (pos n) is_dir std fine = (λ h. absurd (ground arith), λ e. absurd (cc))
  first_verdict-climb_iff (negsuc n) is_dir std fine = negative-climb_iff n is_dir std fine
