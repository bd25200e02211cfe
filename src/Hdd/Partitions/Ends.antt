-- ===== src/Hdd/Partitions/Ends.antt =====
-- `create_partition` from a request that is accepted to each of its ends.
use ps2hdd_rs.Prelude.{
  ℕ, zero, suc, ◌+◌, ◌%◌, ◌/◌, ◌^◌, ◌<◌, ℤ, pos, ◌≡◌, ◌≢◌, refl, ◌⊎◌, inl, inr, true, false, ◌==◌,
  ltb, leb, Text, bytes, [], ◌∷◌, ◌++◌, some, ok, err, is_negative, Bool-cases, arith,
}
use ps2hdd_rs.Ffi.Laws.{Negatable, ok_on_zero-cases, ok_on_nonnegative-cases}
use ps2hdd_rs.PartitionKind.{PartitionKind, FormattablePartitionKind, as_apa_fs_type}
use ps2hdd_rs.Hdd.Partitions.{
  size_str, driver_kind, mkpart_strpath, open_flags, format_device, format_partition,
  create_partition,
}
use ps2hdd_rs.Hdd.Partitions.Creation.{PowerOfTwo}
use ps2hdd_rs.Hdd.Partitions.Formatting.{format_partition_lem}
use ps2hdd_rs.Hdd.Partitions.Sizes.{is_power_of_two_iff}
use ps2hdd_rs.Std.CString.{NoNul}
use ps2hdd_rs.Std.CString.Laws.{cstring_new-NoNul, NoNul-append}
use ps2hdd_rs.Std.Format.{digits, decimal}
use ps2hdd_rs.Sys.Bindings.{Bindings}
use ps2hdd_rs.Sys.Platform.{Platform}
use ps2hdd_rs.Sys.World.{World, ◌>>=◌}

digits-NoNul : (fuel n : ℕ) → NoNul (digits fuel n)
unfolding digits
digits-NoNul zero n = tt
digits-NoNul (suc fuel) n =
    let last : (b'0' + n % 10 == 0) ≡ false = ground arith in
    elim (Bool-cases (ltb n 10)) [
      | inl small ↦ rw small (last, tt)
      | inr large ↦ rw large (
          NoNul-append (digits fuel (n / 10)) ((b'0' + n % 10) ∷ []) (digits-NoNul fuel (n / 10))
            (last, tt))
    ]

size_str-NoNul : (n : ℕ) → NoNul (size_str n)
unfolding size_str decimal bytes
size_str-NoNul n = elim (Bool-cases (leb 1024 n)) [
  | inl large ↦ rw large (
      NoNul-append (decimal (n / 1024)) (bytes "G") (digits-NoNul (suc (n / 1024)) (n / 1024))
        (refl, tt))
  | inr small ↦ rw small (NoNul-append (decimal n) (bytes "M") (digits-NoNul (suc n) n) (refl, tt))
]

as_apa_fs_type-NoNul : (k : PartitionKind) → NoNul (as_apa_fs_type k)
unfolding as_apa_fs_type bytes
as_apa_fs_type-NoNul PartitionKind.mbr = ground arith
as_apa_fs_type-NoNul _ = ground arith

-- A name with no NUL makes a request with none.
mkpart_strpath-NoNul :
    (name : Text) (kind : FormattablePartitionKind) (size : ℕ)
    → NoNul name
    → NoNul (mkpart_strpath name kind size)
unfolding mkpart_strpath bytes
mkpart_strpath-NoNul name kind size h = (
  refl,
  (
    refl,
    (
      refl,
      (
        refl,
        (
          refl,
          NoNul-append name _ h (
            refl,
            (
              refl,
              (
                refl,
                NoNul-append (size_str size) _ (size_str-NoNul size)
                    (refl, as_apa_fs_type-NoNul (driver_kind kind)),
              ),
            ),
          ),
        ),
      ),
    ),
  ),
)

-- The device of a driver's file systems.
abbrev pub formatted_device : FormattablePartitionKind → Text
formatted_device FormattablePartitionKind.mbr = bytes "pfs0:"
formatted_device FormattablePartitionKind.pfs = bytes "pfs0:"
formatted_device FormattablePartitionKind.hdl = bytes "hdl0:"

module _ {b : Bindings} (p : Platform b) where
  -- The call that formats a partition, with its literal arguments.
  abbrev pub formatting : Text → FormattablePartitionKind → p.State → ℤ × p.State
  formatting name kind s =
      p.iomanx_format (formatted_device kind) (some (bytes "hdd0:" ++ name))
        (some (pos 8192 ∷ pos 0x2d66 ∷ pos 0 ∷ [])) 12 s

  -- `format_partition_lem`, with the call written out.
  format_partition-formatting :
      (name : Text) (kind : FormattablePartitionKind) (w : World p)
      → let (result, s) = formatting name kind w.outside in
        NoNul name
        → Negatable p result
        → ((result ≡ pos 0) × (format_partition p name kind w ≡ (ok tt, record w { outside = s })))
          ⊎ ((result ≢ pos 0)
              × (m : Text) × (format_partition p name kind w ≡ (err m, record w { outside = s })))
  unfolding format_device bytes
  format_partition-formatting name FormattablePartitionKind.mbr w fine n =
      format_partition_lem p name FormattablePartitionKind.mbr w fine n
  format_partition-formatting name FormattablePartitionKind.pfs w fine n =
      format_partition_lem p name FormattablePartitionKind.pfs w fine n
  format_partition-formatting name FormattablePartitionKind.hdl w fine n =
      format_partition_lem p name FormattablePartitionKind.hdl w fine n

  -- A request for a power of two of a `u64`, with a name that holds no NUL, is opened, what that
  -- gives is closed, and then the partition is formatted: `pfs0:` for `MBR` and `PFS`, `hdl0:` for
  -- `HDL`, with 8192, 0x2d66 and 0 as the arguments. If the three results can be negated, the first
  -- that fails, a handle below 0 or a result other than 0, makes an error, and no call comes after
  -- it; if none does, `create_partition` succeeds.
  pub create_partition-ends :
      (name : Text) (kind : FormattablePartitionKind) (size : ℕ) (w : World p)
      → let (opened, s₁) = p.iomanx_open (mkpart_strpath name kind size) (open_flags p) w.outside in
        let (closed, s₂) = p.iomanx_close opened s₁ in
        let (formatted, s₃) = formatting name kind s₂ in
        let ended = create_partition p name kind size w in
        size < 2 ^ 64
        → PowerOfTwo size
        → NoNul name
        → Negatable p opened
        → Negatable p closed
        → Negatable p formatted
        → ((is_negative opened ≡ true) × (m : Text) × (ended ≡ (err m, record w { outside = s₁ })))
          ⊎ (((is_negative opened ≡ false) × (closed ≢ pos 0))
              × (m : Text) × (ended ≡ (err m, record w { outside = s₂ })))
          ⊎ (((is_negative opened ≡ false) × (closed ≡ pos 0) × (formatted ≢ pos 0))
              × (m : Text) × (ended ≡ (err m, record w { outside = s₃ })))
          ⊎ (((is_negative opened ≡ false) × (closed ≡ pos 0) × (formatted ≡ pos 0))
              × (ended ≡ (ok tt, record w { outside = s₃ })))
  unfolding create_partition ◌>>=◌
  create_partition-ends name kind size w h power fine n₁ n₂ n₃ =
      let (opened, s₁) = p.iomanx_open (mkpart_strpath name kind size) (open_flags p) w.outside in
      let (closed, s₂) = p.iomanx_close opened s₁ in
      rw
        (
          (is_power_of_two_iff size h).1 power,
          cstring_new-NoNul (mkpart_strpath name kind size)
              (mkpart_strpath-NoNul name kind size fine),
        )
        (elim (ok_on_nonnegative-cases p opened (bytes "Partition creation failed") n₁) [
          | inr (below, m, e) ↦ inl (below, m, rw e)
          | inl (plain, e) ↦
              elim (ok_on_zero-cases p closed (bytes "Failed to close partition handle") n₂) [
                | inr (other, m, e') ↦ inr (inl ((plain, other), m, rw e (rw e')))
                | inl (shut, e') ↦
                    elim (format_partition-formatting name kind (record w { outside = s₂ }) fine
                      n₃) [
                        | inr (other, m, e'') ↦
                            inr (inr (inl ((plain, shut, other), m, rw e (rw e' e''))))
                        | inl (done, e'') ↦ inr (inr (inr ((plain, shut, done), rw e (rw e' e''))))
                      ]
              ]
        ])
