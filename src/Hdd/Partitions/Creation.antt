-- ===== src/Hdd/Partitions/Creation.antt =====
-- The calls of `create_partition`.
use ps2hdd_rs.Prelude.{
  ◌<◌, ◌^◌, ℕ, pos, ◌≡◌, refl, ◌⊎◌, inl, inr, true, Text, bytes, ◌++◌, err, Bool-cases,
}
use ps2hdd_rs.Ffi.Laws.{ok_on_zero_iff, ok_on_nonnegative_iff}
use ps2hdd_rs.PartitionKind.{FormattablePartitionKind}
use ps2hdd_rs.Hdd.Partitions.{
  is_power_of_two, driver_kind, mkpart_strpath, format_device, open_flags, format_partition,
  create_partition,
}
use ps2hdd_rs.Hdd.Partitions.Sizes.{is_power_of_two_iff}
use ps2hdd_rs.Std.CString.{NoNul}
use ps2hdd_rs.Std.CString.Laws.{cstring_new-NoNul, cstring_new-cases, NoNul-front}
use ps2hdd_rs.Sys.Bindings.{Bindings}
use ps2hdd_rs.Sys.Platform.{Platform}
use ps2hdd_rs.Sys.World.{World, ◌>>=◌}

-- A power of two of a `u64`.
abbrev pub PowerOfTwo : ℕ → Type 0
PowerOfTwo size = (k : ℕ) × (k < 64) × (size ≡ 2 ^ k)

-- A request with no NUL has a name with none.
request-name :
    (name : Text) (kind : FormattablePartitionKind) (size : ℕ)
    → NoNul (mkpart_strpath name kind size)
    → NoNul name
unfolding mkpart_strpath bytes
request-name name kind size h = NoNul-front name _ h.1.1.1.1.1

module _ {b : Bindings} (p : Platform b) where
  -- A size of a `u64` that is no power of two, or a name with a NUL, is refused with an error before
  -- any call: the world stays as it was.
  pub create_partition_refused :
      (name : Text) (kind : FormattablePartitionKind) (size : ℕ) (w : World p)
      → size < 2 ^ 64
      → ((¬ PowerOfTwo size) ⊎ (¬ NoNul name))
      → (message : Text) × (create_partition p name kind size w ≡ (err message, w))
  unfolding create_partition ◌>>=◌
  create_partition_refused name kind size w h bad = elim (Bool-cases (is_power_of_two size)) [
    | inr other ↦ (bytes "Partition size must be a power of 2", rw other)
    | inl two ↦ elim (cstring_new-cases (mkpart_strpath name kind size)) [
      | inr (e, failed) ↦ (bytes "couldn't convert string: " ++ e, rw (two, failed))
      | inl (e, fine) ↦ absurd (elim bad [
        | inl odd ↦ odd ((is_power_of_two_iff size h).0 two)
        | inr nul ↦ nul (request-name name kind size fine)
      ])
    ]
  ]

  -- If the size is a power of two, the path holds no NUL, the driver opens it with a handle and
  -- closes that handle, then `create_partition` goes on as `format_partition` from there.
  pub create_partition_formats :
      (name : Text) (kind : FormattablePartitionKind) (size handle : ℕ) (w : World p)
      {s₁ s₂ : p.State}
      → is_power_of_two size ≡ true
      → NoNul (mkpart_strpath name kind size)
      → p.iomanx_open (mkpart_strpath name kind size) (open_flags p) w.outside ≡ (pos handle, s₁)
      → p.iomanx_close (pos handle) s₁ ≡ (pos 0, s₂)
      → create_partition p name kind size w
        ≡ format_partition p name kind (record w { outside = s₂ })
  unfolding create_partition ◌>>=◌
  create_partition_formats name kind size handle w two fine opens closes =
      let opened =
        (ok_on_nonnegative_iff p (pos handle) (pos handle) (bytes "Partition creation failed")).1
          (refl, refl) in
      let closed =
        (ok_on_zero_iff p (pos 0) (pos 0) (bytes "Failed to close partition handle")).1
          (refl, refl) in
      rw (two, cstring_new-NoNul (mkpart_strpath name kind size) fine)
        (rw opens (rw opened (rw closes (rw closed))))

  -- `MBR` is formatted as `PFS`, and no error says so.
  create_partition-mbr :
      (name : Text) (size : ℕ)
      → create_partition p name FormattablePartitionKind.mbr size
        ≡ create_partition p name FormattablePartitionKind.pfs size
  unfolding create_partition format_partition mkpart_strpath format_device driver_kind
  create_partition-mbr name size = refl
