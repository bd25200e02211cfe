-- ===== src/Hdd/Open/Creation.antt =====
-- `PS2HDD::create`: the calls on the host's file system before `open`.
use ps2hdd_rs.Prelude.{ℕ, ◌≡◌, refl, ◌∙◌, ◌⊎◌, inl, inr, Text, Option, none, some, err}
use ps2hdd_rs.Hdd.Open.{open_device, create, error_or}
use ps2hdd_rs.Hdd.Types.{Ps2hdd}
use ps2hdd_rs.Sys.Bindings.{Bindings}
use ps2hdd_rs.Sys.Platform.{Platform}
use ps2hdd_rs.Sys.World.{World, Io, call, ◌>>=◌}

module _ {b : Bindings} (p : Platform b) where
  refused_or {ℓ} :
      {A : Type ℓ} (error : Option Text) (rest : Io p A) (w : World p)
      → ((e : Text) × (error ≡ some e) × (error_or p error rest w ≡ (err e, w)))
        ⊎ ((error ≡ none) × (error_or p error rest w ≡ rest w))
  unfolding ◌>>=◌
  refused_or (some e) rest w = inl (e, refl, refl)
  refused_or none rest w = inr (refl, refl)

  -- `create` makes or truncates the file before anything else, then sets its length, and returns the
  -- error of the one that fails; if neither fails it is `open` from there. A disk that is active does
  -- not stop the two calls.
  pub create-open_device :
      (path : Text) (size : ℕ) (w : World p)
      → let (error, s₁) = p.file_create path w.outside in
        let (error', s₂) = p.set_len path size s₁ in
        ((e : Text) × (error ≡ some e)
          × (create p path size w ≡ (err e, record w { outside = s₁ })))
        ⊎ ((error ≡ none)
            × (e : Text) × (error' ≡ some e)
            × (create p path size w ≡ (err e, record w { outside = s₂ })))
        ⊎ ((error ≡ none)
            × (error' ≡ none)
            × (create p path size w ≡ open_device p path (record w { outside = s₂ })))
  unfolding create ◌>>=◌
  create-open_device path size w =
      let (error, s₁) = p.file_create path w.outside in
      let (error', s₂) = p.set_len path size s₁ in
      let w₁ : World p = record w { outside = s₁ } in
      let w₂ : World p = record w { outside = s₂ } in
      let rest : Io p Ps2hdd =
        call (p.set_len path size) >>= λ extended. error_or p extended (open_device p path) in
      elim (refused_or error rest w₁) [
        | inl (e, failed, same) ↦ inl (e, failed, same)
        | inr (made, same) ↦ elim (refused_or error' (open_device p path) w₂) [
          | inl (e, failed, same') ↦ inr (inl (made, e, failed, same ∙ same'))
          | inr (long, same') ↦ inr (inr (made, long, same ∙ same'))
        ]
      ]
