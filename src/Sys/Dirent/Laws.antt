-- ===== src/Sys/Dirent/Laws.antt =====
-- Equality of directory entries, and the C string in the name.
use ps2hdd_rs.Prelude.{
  ℕ, suc, ◌+◌, ◌-◌, ◌≤◌, if◌then◌else◌, ◌≡◌, refl, ◌↔◌, true, Text, [], ◌∷◌, length, take,
  text_eq_refl, text_eq→eq, Option, some, none, arith, Bool-cases, inl, inr, ◌==◌, ok, >>?-eq-ok,
}
use ps2hdd_rs.Std.CString.{nul_position, from_ptr}
use ps2hdd_rs.Sys.Bindings.{Bindings, IsLawful, Dirent}
use ps2hdd_rs.Sys.Dirent.{end_of, name_slice, dirent_eq}

-- The name up to its first NUL, or all of it.
unfoldable pub until_nul : Text → Text
until_nul [] = []
until_nul (b ∷ s) = if b == 0 then [] else b ∷ until_nul s

nul_position-le : (s : Text) (k i : ℕ) → nul_position k s ≡ some i → k ≤ i
unfolding nul_position
nul_position-le [] k i h = absurd (cc)
nul_position-le (b ∷ s) k i h = elim (Bool-cases (b == 0)) [
  | inl nul ↦ ground arith
  | inr other ↦ omega (arith, nul_position-le s (k + 1) i (rw (other, nul_position) at h))
]

-- Where the slice ends, counted from a first position.
abbrev end_from : ℕ → Text → Option ℕ → ℕ
end_from k s (some index) = index - k
end_from k s none = length s

end_from-suc :
    (k b : ℕ) (s : Text) (found : Option ℕ)
    → ((i : ℕ) → found ≡ some i → k + 1 ≤ i)
    → end_from k (b ∷ s) found ≡ suc (end_from (k + 1) s found)
end_from-suc k b s none h = refl
end_from-suc k b s (some i) h = omega (arith, h i refl)

take-end_from : (s : Text) (k : ℕ) → take (end_from k s (nul_position k s)) s ≡ until_nul s
unfolding nul_position until_nul
take-end_from [] k = refl
take-end_from (b ∷ s) k = elim (Bool-cases (b == 0)) [
  | inl nul ↦ let zero_long : k - k ≡ 0 = omega arith in rw (nul, zero_long)
  | inr other ↦ rw (
    other,
    end_from-suc k b s (nul_position (k + 1) s) (λ i e. nul_position-le s (k + 1) i e),
    take-end_from s (k + 1),
  )
]

end_of-end_from : (name : Text) (found : Option ℕ) → end_of name found ≡ end_from 0 name found
end_of-end_from name none = refl
end_of-end_from name (some index) = omega arith

name_slice-until_nul : (name : Text) → name_slice name ≡ until_nul name
unfolding name_slice
name_slice-until_nul name = rw (end_of-end_from name (nul_position 0 name)) (take-end_from name 0)

ok-injective {ℓ} : {A : Type ℓ} {a c : A} → ok a ≡ ok c → a ≡ c
ok-injective h = cc

-- What a C string read from the array gives is what the comparison reads.
pub until_nul-from_ptr : (s : Text) {t : Text} → from_ptr s ≡ ok t → until_nul s ≡ t
unfolding from_ptr until_nul
until_nul-from_ptr [] h = absurd (cc)
until_nul-from_ptr (b ∷ s) {t} h = elim (Bool-cases (b == 0)) [
  | inl nul ↦ ground arith
  | inr other ↦
      let (u, found, same) = >>?-eq-ok (from_ptr s) (λ t. ok (b ∷ t)) (rw (other, from_ptr) at h) in
      rw (other, until_nul-from_ptr s found) (ok-injective same)
]

module _ {b : Bindings} (lawful : IsLawful b) where
  -- Two entries are equal exactly if their names up to the first NUL, their stats and their unknown
  -- fields are. What stands behind the NUL does not count.
  pub dirent_eq_iff :
      (x y : Dirent b)
      → (dirent_eq x y ≡ true)
        ↔ ((until_nul x.name ≡ until_nul y.name) × (x.stat ≡ y.stat) × (x.unknown ≡ y.unknown))
  unfolding dirent_eq
  dirent_eq_iff x y =
      rw (name_slice-until_nul x.name, name_slice-until_nul y.name, dirent_eq)
        (
          λ h. ground (
            arith,
            text_eq→eq (until_nul x.name) (until_nul y.name),
            (lawful.stat_eq_iff x.stat y.stat).0,
            (lawful.unknown_eq_iff x.unknown y.unknown).0,
          ),
          λ (names, stats, others). rw (
            names,
            text_eq_refl (until_nul y.name),
            (lawful.stat_eq_iff x.stat y.stat).1 stats,
            (lawful.unknown_eq_iff x.unknown y.unknown).1 others,
          ),
        )
