-- ===== src/ReadDir/Laws.antt =====
-- The loop and the calls around it against a driver that serves entries.
use ps2hdd_rs.Prelude.{
  ℕ, zero, suc, ◌<◌, ℤ, pos, Text, List, [], ◌∷◌, ◌≡◌, refl, ◌∙◌, true, false, is_negative,
  is_positive, if◌then◌else◌, Outcome, ok, err, panic, undefined, out_of_fuel, ◌>>?◌, length, arith,
  >>?_assoc, >>?-eq-ok, Bool-cases, inl, inr,
}
use ps2hdd_rs.Ffi.Laws.{ok_on_zero_iff, ok_on_nonnegative_iff}
use ps2hdd_rs.Std.CString.{read_str}
use ps2hdd_rs.ReadDir.{Messages, zeroed, read_error, read_loop, read_directory}
use ps2hdd_rs.Sys.Bindings.{Bindings, Dirent}
use ps2hdd_rs.Sys.Platform.{Platform}
use ps2hdd_rs.Sys.World.{World, Io, lift, continue, ◌>>=◌}

module _ {b : Bindings} (p : Platform b) where
  -- From the state `s`, with `t` in the buffer, the handle yields these entries, and then a last
  -- result with its entry and state.
  abbrev pub Serves : ℤ → Dirent b → p.State → List (Dirent b) → ℤ → Dirent b → p.State → Type 0
  Serves handle t s [] last t' s' =
      (is_positive last ≡ false) × (p.iomanx_dread handle t s ≡ ((last, t'), s'))
  Serves handle t s (d ∷ ds) last t' s' =
      (r : ℤ) × (s₁ : p.State) × (is_positive r ≡ true)
      × (p.iomanx_dread handle t s ≡ ((r, d), s₁))
      × Serves handle d s₁ ds last t' s'

  -- What the body of the loop makes of entries.
  abbrev pub gather :
      {A : Type 0}
      → (Dirent b → List A → Outcome (List A))
      → List A
      → List (Dirent b)
      → Outcome (List A)
  gather accept out [] = ok out
  gather accept out (d ∷ ds) = accept d out >>? λ out'. gather accept out' ds

  -- The end of the loop.
  abbrev pub finish : {A : Type 0} → Messages → ℤ → Dirent b → List A → Outcome (List A)
  finish says last t' out =
      if is_negative last then read_error says last (read_str t'.name) else ok out

  positive_not_negative : (r : ℤ) → is_positive r ≡ true → is_negative r ≡ false
  positive_not_negative r h = ground arith

  module _ {A : Type 0} (says : Messages) (accept : Dirent b → List A → Outcome (List A)) where
    -- The body and then the rest of the loop.
    step :
        (r : Outcome (List A)) (again : List A → Io p (List A)) (rest : List A → Outcome (List A))
        (w : World p)
        → ((out : List A) → (again out w).0 ≡ rest out)
        → ((lift r >>= again) w).0 ≡ (r >>? rest)
    unfolding ◌>>=◌
    step (ok out) again rest w h = h out
    step (err e) again rest w h = refl
    step (panic e) again rest w h = refl
    step undefined again rest w h = refl
    step out_of_fuel again rest w h = refl

    -- With more fuel than entries the loop ends: its result is that of the body over the entries and
    -- then of the last result.
    pub read_loop-gather :
        (fuel : ℕ) (handle last : ℤ) (t t' : Dirent b) (ds : List (Dirent b)) (out : List A)
        (w : World p) (s' : p.State)
        → Serves handle t w.outside ds last t' s'
        → length ds < fuel
        → (read_loop p says fuel handle accept t out w).0
          ≡ (gather accept out ds >>? finish says last t')
    unfolding read_loop ◌>>=◌
    read_loop-gather zero handle last t t' ds out w s' serves h = absurd (omega arith)
    read_loop-gather (suc fuel) handle last t t' [] out w s' (stops, e) h =
        rw e (elim (Bool-cases (is_negative last)) [
          | inl failed ↦ rw failed
          | inr fine ↦ rw (fine, stops)
        ])
    read_loop-gather (suc fuel) handle last t t' (d ∷ ds) out w s' (r, s₁, more, e, serves) h =
        let rest : List A → Outcome (List A) = λ out'. gather accept out' ds in
        rw (e) (
          rw (positive_not_negative r more, more)
            (rw (>>?_assoc (accept d out) rest (finish says last t')) (
              step (accept d out) (read_loop p says fuel handle accept d)
                (λ out'. rest out' >>? finish says last t') (record w { outside = s₁ })
                (λ out'.
                  read_loop-gather fuel handle last d t' ds out' (record w { outside = s₁ }) s'
                    serves (omega arith)))))

    -- Where the body takes every entry, the driver's state is the one behind the last result.
    pub read_loop-state :
        (fuel : ℕ) (handle last : ℤ) (t t' : Dirent b) (ds : List (Dirent b)) (out : List A)
        {result : List A} (w : World p) (s' : p.State)
        → Serves handle t w.outside ds last t' s'
        → length ds < fuel
        → gather accept out ds ≡ ok result
        → (read_loop p says fuel handle accept t out w).1 ≡ record w { outside = s' }
    unfolding read_loop ◌>>=◌
    read_loop-state zero handle last t t' ds out w s' serves h g = absurd (omega arith)
    read_loop-state (suc fuel) handle last t t' [] out w s' (stops, e) h g =
        rw e (elim (Bool-cases (is_negative last)) [
          | inl failed ↦ rw failed
          | inr fine ↦ rw (fine, stops)
        ])
    read_loop-state (suc fuel) handle last t t' (d ∷ ds) out w s' (r, s₁, more, e, serves) h g =
        let (out', taken, g') = >>?-eq-ok (accept d out) (λ out'. gather accept out' ds) g in
        rw e (
          rw (positive_not_negative r more, more)
            (rw taken (
              read_loop-state fuel handle last d t' ds out' (record w { outside = s₁ }) s' serves
                (omega arith) g')))

pub >>?-ok {ℓ} : {A : Type ℓ} (r : Outcome A) → (r >>? λ a. ok a) ≡ r
>>?-ok (ok a) = refl
>>?-ok _ = refl

module _ {b : Bindings} {p : Platform b} {A : Type 0} where
  -- What follows a part of known result, and gives its value back.
  after :
      (r : Outcome A) (w w₃ : World p) (k : A → Io p A) (g : Outcome A)
      → r ≡ g
      → ((a : A) → g ≡ ok a → k a w ≡ (ok a, w₃))
      → ((continue r k w).0 ≡ g) × ((a : A) → g ≡ ok a → (continue r k w).1 ≡ w₃)
  after r w w₃ k (ok a) e h = rw (e, h a refl) (refl, λ c q. refl)
  after r w w₃ k (err m) e h = rw e (refl, λ c q. absurd (cc))
  after r w w₃ k (panic m) e h = rw e (refl, λ c q. absurd (cc))
  after r w w₃ k undefined e h = rw e (refl, λ c q. absurd (cc))
  after r w w₃ k out_of_fuel e h = rw e (refl, λ c q. absurd (cc))

module _ {b : Bindings} (p : Platform b) where
  -- A directory that the driver carries through: it opens with a handle, serves its entries up to a
  -- result of 0, and closes.
  pub record Session (path : Text) (ds : List (Dirent b)) (s₀ s₃ : p.State) : Type 0 where
    pub handle : ℕ
    pub t' : Dirent b
    pub s₁ : p.State
    pub s₂ : p.State
    pub opens : p.iomanx_dopen path s₀ ≡ (pos handle, s₁)
    pub serves : Serves p (pos handle) (zeroed b) s₁ ds (pos 0) t' s₂
    pub closes : p.iomanx_close (pos handle) s₂ ≡ (pos 0, s₃)

  -- With more fuel than entries such a directory is read to its end: the result is that of the body
  -- over the entries, and where that is a list, the directory has been closed.
  pub read_directory-gather :
      {A : Type 0} (says : Messages) (fuel : ℕ) (accept : Dirent b → List A → Outcome (List A))
      (path : Text) (ds : List (Dirent b)) (w : World p) (s₃ : p.State)
      → Session path ds w.outside s₃
      → length ds < fuel
      → ((read_directory p says fuel accept path w).0 ≡ gather p accept [] ds)
        × ((out : List A)
            → gather p accept [] ds ≡ ok out
            → (read_directory p says fuel accept path w).1 ≡ record w { outside = s₃ })
  unfolding read_directory ◌>>=◌
  read_directory-gather {A} says fuel accept path ds w s₃ session h =
      let w₁ : World p = record w { outside = session.s₁ } in
      let opened =
        (ok_on_nonnegative_iff p (pos session.handle) (pos session.handle) says.opening).1
          (refl, refl) in
      let closed = (ok_on_zero_iff p (pos 0) (pos 0) says.closing).1 (refl, refl) in
      let result =
        read_loop-gather p says accept fuel (pos session.handle) (pos 0) (zeroed b) session.t' ds []
          w₁ session.s₂ session.serves h in
      let final = λ (out : List A) (g : gather p accept [] ds ≡ ok out).
        read_loop-state p says accept fuel (pos session.handle) (pos 0) (zeroed b) session.t' ds []
          w₁ session.s₂ session.serves h g in
      rw (session.opens) (
        rw (opened) (
          after _ _ (record w { outside = s₃ }) _ (gather p accept [] ds) (result ∙ >>?-ok _)
            (λ out g. rw (final out g) (rw (session.closes, closed)))))
