-- ===== src/Std/Utf8/Laws.antt =====
-- Validation: ASCII, concatenation, and the lossy conversion of valid bytes.
use ps2hdd_rs.Prelude.{
  ℕ, ◌+◌, ◌<◌, Text, [], ◌∷◌, ◌++◌, ◌≡◌, ◌⊎◌, inl, inr, refl, none, some, arith, All, append-nil,
  append_assoc, ok, err, Option,
}
use ps2hdd_rs.Std.Utf8.{
  Utf8State, Utf8Step, boundary, within, next, invalid, advance, validate, from_utf8, report,
  Utf8Error, IsUtf8, lossy, from_utf8_lossy, lossy_step,
}

abbrev pub IsAscii : Text → Type 0
IsAscii = All (λ b. b < 0x80)

advance-ascii : (b : ℕ) → b < 0x80 → advance boundary b ≡ next boundary
unfolding advance
advance-ascii b h = ground arith

validate-ascii : (s : Text) (position : ℕ) → IsAscii s → validate boundary position s ≡ none
unfolding validate
validate-ascii [] position h = refl
validate-ascii (b ∷ s) position h =
    rw (advance-ascii b h.0, validate) (validate-ascii s (position + 1) h.1)

Utf8Step-cases :
    (r : Utf8Step) → ((state : Utf8State) × (r ≡ next state)) ⊎ ((n : ℕ) × (r ≡ invalid n))
Utf8Step-cases (next state) = inl (state, refl)
Utf8Step-cases (invalid n) = inr (n, refl)

-- Two texts one after the other, wherever they stand, are valid if both are.
validate-append :
    (s t : Text) (state : Utf8State) (i j : ℕ)
    → validate state i s ≡ none
    → ((k : ℕ) → validate boundary k t ≡ none)
    → validate state j (s ++ t) ≡ none
unfolding validate
validate-append [] t boundary i j h k = k j
validate-append [] t (within _ _ _ _) i j h k = ground arith
validate-append (b ∷ s) t boundary i j h k = elim (Utf8Step-cases (advance boundary b)) [
  | inl (state', e) ↦ rw (e, validate) (validate-append s t state' _ _ (rw (e, validate) at h) k)
  | inr (n, e) ↦ ground arith
]
validate-append (b ∷ s) t (within m l u n) i j h k =
    elim (Utf8Step-cases (advance (within m l u n) b)) [
      | inl (state', e) ↦
          rw (e, validate) (validate-append s t state' _ _ (rw (e, validate) at h) k)
      | inr (n, e) ↦ ground arith
    ]

-- Validity does not depend on where the text stands.
validate-shift : (s : Text) (i : ℕ) → IsUtf8 s → validate boundary i s ≡ none
unfolding validate
validate-shift s i h = rw append-nil at (validate-append s [] boundary 0 i h (λ k. refl))

pub IsUtf8-append : (s t : Text) → IsUtf8 s → IsUtf8 t → IsUtf8 (s ++ t)
IsUtf8-append s t hs ht = validate-append s t boundary 0 0 hs (λ k. validate-shift t k ht)

pub IsAscii-IsUtf8 : (s : Text) → IsAscii s → IsUtf8 s
IsAscii-IsUtf8 s h = validate-ascii s 0 h

pub from_utf8-IsUtf8 : (s : Text) → IsUtf8 s → from_utf8 s ≡ ok s
unfolding from_utf8
from_utf8-IsUtf8 s h = rw h

report-cases :
    (s : Text) (r : Option Utf8Error)
    → ((report s r ≡ ok s) × (r ≡ none)) ⊎ ((e : Text) × (report s r ≡ err e))
unfolding from_utf8
report-cases s none = inl (refl, refl)
report-cases s (some e) = inr (_, refl)

-- The text itself, if it is valid, and an error otherwise.
pub from_utf8-cases :
    (s : Text) → ((from_utf8 s ≡ ok s) × IsUtf8 s) ⊎ ((e : Text) × (from_utf8 s ≡ err e))
unfolding from_utf8
from_utf8-cases s = report-cases s (validate boundary 0 s)

-- Nothing is held back between two characters.
abbrev Fits : Utf8State → Text → Type 0
Fits boundary pending = pending ≡ []
Fits (within _ _ _ _) pending = Unit

lossy_step-next :
    (state state' : Utf8State) (pending : Text) (b : ℕ) (s : Text)
    → ((held : Text) → Fits state' held → lossy state' held s ≡ held ++ s)
    → let r = lossy_step state pending b (next state') in r.0 ++ lossy r.1 r.2 s ≡ pending ++ b ∷ s
unfolding lossy_step
lossy_step-next boundary boundary pending b s ih = rw (ih [] refl, append_assoc)
lossy_step-next boundary (within _ _ _ _) pending b s ih =
    rw (ih (pending ++ b ∷ []) tt, append_assoc)
lossy_step-next (within _ _ _ _) boundary pending b s ih = rw (ih [] refl, append_assoc)
lossy_step-next (within _ _ _ _) (within _ _ _ _) pending b s ih =
    rw (ih (pending ++ b ∷ []) tt, append_assoc)

-- What is held back and what is still to come are put out unchanged.
lossy-valid :
    (s pending : Text) (state : Utf8State) (i : ℕ)
    → validate state i s ≡ none
    → Fits state pending
    → lossy state pending s ≡ pending ++ s
unfolding validate lossy
lossy-valid [] pending boundary i h fits = rw fits
lossy-valid [] pending (within _ _ _ _) i h fits = ground arith
lossy-valid (b ∷ s) pending boundary i h fits = elim (Utf8Step-cases (advance boundary b)) [
  | inl (state', e) ↦
      rw (e, lossy)
        (lossy_step-next boundary state' pending b s
          (λ held f. lossy-valid s held state' _ (rw (e, validate) at h) f))
  | inr (n, e) ↦ ground arith
]
lossy-valid (b ∷ s) pending (within m l u n) i h fits =
    elim (Utf8Step-cases (advance (within m l u n) b)) [
      | inl (state', e) ↦
          rw (e, lossy)
            (lossy_step-next (within m l u n) state' pending b s
              (λ held f. lossy-valid s held state' _ (rw (e, validate) at h) f))
      | inr (n', e) ↦ ground arith
    ]

-- The lossy conversion leaves valid bytes alone.
pub from_utf8_lossy-IsUtf8 : (s : Text) → IsUtf8 s → from_utf8_lossy s ≡ s
unfolding from_utf8_lossy
from_utf8_lossy-IsUtf8 s h = lossy-valid s [] boundary 0 h refl
