-- ===== src/Hdd/Partitions/Formatting.antt =====
-- `initialize` and `format_partition`.
use ps2hdd_rs.Prelude.{
  ℤ, pos, ◌≡◌, ◌≢◌, refl, ◌⊎◌, inl, inr, Text, bytes, ◌++◌, [], ◌∷◌, none, some, ok, err,
}
use ps2hdd_rs.Ffi.Laws.{Negatable, ok_on_zero_iff, ok_on_zero-cases}
use ps2hdd_rs.PartitionKind.{FormattablePartitionKind}
use ps2hdd_rs.Hdd.Partitions.{
  format_device, pfs_zone_size, pfs_fragment, format_partition, initialize,
}
use ps2hdd_rs.Std.CString.{cstring_new, NoNul}
use ps2hdd_rs.Std.CString.Laws.{cstring_new-NoNul}
use ps2hdd_rs.Sys.Bindings.{Bindings}
use ps2hdd_rs.Sys.Platform.{Platform}
use ps2hdd_rs.Sys.World.{World, ◌>>=◌}

device_cstring :
    (kind : FormattablePartitionKind) → cstring_new (format_device kind) ≡ ok (format_device kind)
unfolding cstring_new format_device bytes
device_cstring FormattablePartitionKind.mbr = refl
device_cstring FormattablePartitionKind.pfs = refl
device_cstring FormattablePartitionKind.hdl = refl

pub partition_NoNul : (name : Text) → NoNul name → NoNul (bytes "hdd0:" ++ name)
unfolding bytes
partition_NoNul name fine = (refl, (refl, (refl, (refl, (refl, fine)))))

module _ {b : Bindings} (p : Platform b) where
  -- The call that formats a partition.
  abbrev pub format_call : Text → FormattablePartitionKind → p.State → ℤ × p.State
  format_call name kind s =
      p.iomanx_format (format_device kind) (some (bytes "hdd0:" ++ name))
        (some (pfs_zone_size ∷ pos 0x2d66 ∷ pfs_fragment ∷ [])) 12 s

  -- `format_partition` of a name with no NUL makes one call; if its result can be negated, it
  -- succeeds exactly where that is 0, and returns an error otherwise.
  pub format_partition_lem :
      (name : Text) (kind : FormattablePartitionKind) (w : World p)
      → let (result, s) = format_call name kind w.outside in
        NoNul name
        → Negatable p result
        → ((result ≡ pos 0) × (format_partition p name kind w ≡ (ok tt, record w { outside = s })))
          ⊎ ((result ≢ pos 0)
              × (m : Text) × (format_partition p name kind w ≡ (err m, record w { outside = s })))
  unfolding format_partition ◌>>=◌
  format_partition_lem name kind w fine negatable =
      let (result, s) = format_call name kind w.outside in
      rw
        (device_cstring kind, cstring_new-NoNul (bytes "hdd0:" ++ name) (partition_NoNul name fine))
        (elim (ok_on_zero-cases p result (bytes "PFS partition formatting failed") negatable) [
          | inl (zero, e) ↦ inl (zero, rw e)
          | inr (other, m, e) ↦ inr (other, m, rw e)
        ])

  -- `initialize` makes one call, which formats the whole disk; if its result can be negated, it
  -- succeeds exactly where that is 0, and returns an error otherwise.
  pub initialize_lem :
      (w : World p)
      → let (result, s) = p.iomanx_format (bytes "hdd0:") none none 0 w.outside in
        Negatable p result
        → ((result ≡ pos 0) × (initialize p w ≡ (ok tt, record w { outside = s })))
          ⊎ ((result ≢ pos 0) × (m : Text) × (initialize p w ≡ (err m, record w { outside = s })))
  unfolding initialize ◌>>=◌ cstring_new bytes
  initialize_lem w negatable =
      let (result, s) = p.iomanx_format (bytes "hdd0:") none none 0 w.outside in
      elim (ok_on_zero-cases p result (bytes "HDD formatting failed") negatable) [
        | inl (zero, e) ↦ inl (zero, rw e)
        | inr (other, m, e) ↦ inr (other, m, rw e)
      ]

  -- The successful case, with the state that the driver leaves.
  pub format_partition-ok :
      (name : Text) (kind : FormattablePartitionKind) (w : World p) {s : p.State}
      → NoNul name
      → format_call name kind w.outside ≡ (pos 0, s)
      → format_partition p name kind w ≡ (ok tt, record w { outside = s })
  unfolding format_partition ◌>>=◌
  format_partition-ok name kind w fine e =
      let zero =
        (ok_on_zero_iff p (pos 0) (pos 0) (bytes "PFS partition formatting failed")).1
          (refl, refl) in
      rw
        (device_cstring kind, cstring_new-NoNul (bytes "hdd0:" ++ name) (partition_NoNul name fine))
        (rw e (rw zero))
