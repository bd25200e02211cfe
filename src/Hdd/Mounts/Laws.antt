-- ===== src/Hdd/Mounts/Laws.antt =====
-- The two slots of an open disk.
use ps2hdd_rs.Prelude.{
  ap, Option, false, ◌≡◌, refl, Text, bytes, ◌++◌, true, false, none, some, ok, err, panic,
  undefined, out_of_fuel, arith, is_ok, ◌⊎◌, ◌↔◌, inl, inr, pos, ℤ, Outcome, Bool-cases, is_nonzero,
}
use ps2hdd_rs.Driver.{Pfs, Hdlfs}
use ps2hdd_rs.Ffi.{ok_on_zero_or_strerror}
use ps2hdd_rs.Ffi.Laws.{ok_on_zero_iff}
use ps2hdd_rs.Hdd.Types.{Ps2hdd}
use ps2hdd_rs.Hdd.Mounts.{
  mount, mount_pfs, umount_pfs, mount_hdlfs, is_some, after_pfs, after_hdlfs,
}
use ps2hdd_rs.Hdd.Partitions.Formatting.{partition_NoNul}
use ps2hdd_rs.Std.CString.{NoNul, cstring_new}
use ps2hdd_rs.Std.CString.Laws.{cstring_new-NoNul, cstring_new-cases}
use ps2hdd_rs.Sys.Bindings.{Bindings}
use ps2hdd_rs.Sys.Platform.{Platform}
use ps2hdd_rs.Sys.World.{World, continue, pure, ◌>>=◌}

name_NoNul : (name : Text) → NoNul (bytes "hdd0:" ++ name) → NoNul name
unfolding bytes
name_NoNul name plain = plain.1.1.1.1.1

is_some-none {ℓ} : {A : Type ℓ} (slot : Option A) → is_some slot ≡ false → slot ≡ none
is_some-none none h = refl
is_some-none (some a) h = absurd (cc)

failed_pfs :
    (self : Ps2hdd) (name : Text) (o : Outcome (Unit {0}))
    → is_ok o ≡ false
    → (is_ok (after_pfs self name o).0 ≡ false) × ((after_pfs self name o).1 ≡ self)
unfolding after_pfs
failed_pfs self name (ok a) h = absurd (cc)
failed_pfs self name (err e) h = (refl, refl)
failed_pfs self name (panic e) h = (refl, refl)
failed_pfs self name undefined h = (refl, refl)
failed_pfs self name out_of_fuel h = (refl, refl)

failed_hdlfs :
    (self : Ps2hdd) (name : Text) (o : Outcome (Unit {0}))
    → is_ok o ≡ false
    → (is_ok (after_hdlfs self name o).0 ≡ false) × ((after_hdlfs self name o).1 ≡ self)
unfolding after_hdlfs
failed_hdlfs self name (ok a) h = absurd (cc)
failed_hdlfs self name (err e) h = (refl, refl)
failed_hdlfs self name (panic e) h = (refl, refl)
failed_hdlfs self name undefined h = (refl, refl)
failed_hdlfs self name out_of_fuel h = (refl, refl)

module _ {b : Bindings} (p : Platform b) where
  fails_too :
      (o : Outcome ℤ) (w : World p)
      → ((x : ℤ) → o ≡ ok x → ⊥)
      → is_ok (continue {p = p} o (λ _. pure (tt {0})) w).0 ≡ false
  unfolding ◌>>=◌
  fails_too (ok x) w h = absurd (h x refl)
  fails_too (err e) w h = refl
  fails_too (panic e) w h = refl
  fails_too undefined w h = refl
  fails_too out_of_fuel w h = refl

  -- The two ends of `mount`, at the driver's result.
  mount-cases :
      (point name : Text) (w : World p)
      → cstring_new point ≡ ok point
      → let (code, s) = p.iomanx_mount point (bytes "hdd0:" ++ name) (pos 0) w.outside in
        (NoNul name × (code ≡ pos 0) × (mount p point name w ≡ (ok tt, record w { outside = s })))
        ⊎ ((¬ (NoNul name × (code ≡ pos 0))) × (is_ok (mount p point name w).0 ≡ false))
  unfolding mount ◌>>=◌
  mount-cases point name w fine = elim (cstring_new-cases (bytes "hdd0:" ++ name)) [
    | inr (e, bad) ↦ inr (
      λ (plain, zero).
          let whole = cstring_new-NoNul (bytes "hdd0:" ++ name) (partition_NoNul name plain) in cc,
      rw (fine, bad),
    )
    | inl (whole, plain) ↦
        let (code, s) = p.iomanx_mount point (bytes "hdd0:" ++ name) (pos 0) w.outside in
        elim (Bool-cases (is_nonzero code)) [
          | inl other ↦ inr (
            λ (n, zero). absurd (ground arith),
            rw (fine, whole)
                (fails_too (ok_on_zero_or_strerror p code (bytes "Mounting failed")) _ (λ x good.
                  let zero = ((ok_on_zero_iff p code x (bytes "Mounting failed")).0 good).0 in
                  ground arith)),
          )
          | inr none_left ↦
              let zero : code ≡ pos 0 = ground arith in
              let good = (ok_on_zero_iff p code (pos 0) (bytes "Mounting failed")).1 (zero, refl) in
              inl (name_NoNul name plain, zero, rw (fine, whole) (rw good))
        ]
  ]

  -- `mount_pfs` succeeds exactly if its slot is empty, the name holds no NUL, and the driver's mount of the
  -- partition returns 0; then the slot alone has changed, and names the partition, which is the result,
  -- and the driver is in the state after the mount. Without success the object is as before.
  pub mount_pfs_slot :
      (name : Text) (self : Ps2hdd) (w : World p)
      → let ((result, self'), w') = mount_pfs p name self w in
        let (code, s) = p.iomanx_mount (bytes "pfs0:") (bytes "hdd0:" ++ name) (pos 0) w.outside in
        let fresh : Pfs = record { partition_name = name } in
        ((is_ok result ≡ true) ↔ ((self.pfs ≡ none) × NoNul name × (code ≡ pos 0)))
        × (is_ok result ≡ true
            → (result ≡ ok fresh)
              × (w' ≡ record w { outside = s })
              × (self' ≡ record self { pfs = some fresh }))
        × (is_ok result ≡ false → self' ≡ self)
  unfolding mount_pfs cstring_new bytes
  mount_pfs_slot name self w = elim (Bool-cases (is_some self.pfs)) [
    | inl taken ↦ rw taken (
      (λ h. absurd (cc), λ (free, n, z). absurd (let e = ap is_some free in cc)),
      λ h. absurd (cc),
      λ h. refl,
    )
    | inr empty ↦ elim (mount-cases (bytes "pfs0:") name w refl) [
      | inl (plain, zero, e) ↦
          rw (empty, e)
            (
              (λ h. (is_some-none self.pfs empty, plain, zero), λ h. refl),
              λ h. (refl, refl, refl),
              λ h. absurd (cc),
            )
      | inr (bad, failed) ↦
          let (refused, same) = failed_pfs self name _ failed in
          rw empty
            ((λ h. absurd (cc), λ (free, n, z). absurd (bad (n, z))), λ h. absurd (cc), λ h. same)
    ]
  ]

  -- `mount_hdlfs` succeeds exactly if its slot is empty, the name holds no NUL, and the driver's mount of the
  -- partition returns 0; then the slot alone has changed, and names the partition, which is the result,
  -- and the driver is in the state after the mount. Without success the object is as before.
  mount_hdlfs_slot :
      (name : Text) (self : Ps2hdd) (w : World p)
      → let ((result, self'), w') = mount_hdlfs p name self w in
        let (code, s) = p.iomanx_mount (bytes "hdl0:") (bytes "hdd0:" ++ name) (pos 0) w.outside in
        let fresh : Hdlfs = record { partition_name = name } in
        ((is_ok result ≡ true) ↔ ((self.hdlfs ≡ none) × NoNul name × (code ≡ pos 0)))
        × (is_ok result ≡ true
            → (result ≡ ok fresh)
              × (w' ≡ record w { outside = s })
              × (self' ≡ record self { hdlfs = some fresh }))
        × (is_ok result ≡ false → self' ≡ self)
  unfolding mount_hdlfs cstring_new bytes
  mount_hdlfs_slot name self w = elim (Bool-cases (is_some self.hdlfs)) [
    | inl taken ↦ rw taken (
      (λ h. absurd (cc), λ (free, n, z). absurd (let e = ap is_some free in cc)),
      λ h. absurd (cc),
      λ h. refl,
    )
    | inr empty ↦ elim (mount-cases (bytes "hdl0:") name w refl) [
      | inl (plain, zero, e) ↦
          rw (empty, e)
            (
              (λ h. (is_some-none self.hdlfs empty, plain, zero), λ h. refl),
              λ h. (refl, refl, refl),
              λ h. absurd (cc),
            )
      | inr (bad, failed) ↦
          let (refused, same) = failed_hdlfs self name _ failed in
          rw empty
            ((λ h. absurd (cc), λ (free, n, z). absurd (bad (n, z))), λ h. absurd (cc), λ h. same)
    ]
  ]

  -- If `mount_pfs` succeeds, unmounting succeeds, gives the object back as it was before the mount,
  -- and leaves the world as the mount left it: no call tells the driver.
  pub umount_pfs-mount_pfs :
      (name : Text) (self : Ps2hdd) (w : World p)
      → let ((result, self'), w') = mount_pfs p name self w in
        is_ok result ≡ true → umount_pfs p self' w' ≡ ((ok tt, self), w')
  unfolding mount_pfs umount_pfs
  umount_pfs-mount_pfs name self w h = ground arith

  -- After a mount that succeeds, another one in the same slot is refused, whatever its name, with no
  -- call and no change; the error speaks of a PFS partition for both slots.
  pub mount_twice :
      (name other : Text) (self : Ps2hdd) (w : World p)
      → let ((pfs, self₁), w₁) = mount_pfs p name self w in
        let ((hdlfs, self₂), w₂) = mount_hdlfs p name self w in
        let refused = bytes "A PFS partition is already mounted" in
        (is_ok pfs ≡ true → mount_pfs p other self₁ w₁ ≡ ((err refused, self₁), w₁))
        × (is_ok hdlfs ≡ true → mount_hdlfs p other self₂ w₂ ≡ ((err refused, self₂), w₂))
  unfolding mount_pfs mount_hdlfs
  mount_twice name other self w = (λ h. ground arith, λ h. ground arith)
