-- ===== src/Sys/Bindings.antt =====
-- The types and constants of the generated `bindings.rs`. Only what the source uses of them is
-- named; their values are parameters.
use ps2hdd_rs.Prelude.{ℕ, Bool, true, ◌≡◌, ◌↔◌, Text}

pub record Bindings : Type 1 where
  -- `iox_stat_t`, with the two fields that the source reads.
  pub Stat : Type 0
  pub mode : Stat → ℕ
  pub size : Stat → ℕ
  -- The type of the field `unknown` of `iox_dirent_t`.
  pub Unknown : Type 0
  -- The derived `PartialEq` of both.
  pub stat_eq : Stat → Stat → Bool
  pub unknown_eq : Unknown → Unknown → Bool
  -- The derived `Debug` of `iox_stat_t`.
  pub stat_debug : Stat → Text
  -- `std::mem::zeroed()` of both.
  pub zero_stat : Stat
  pub zero_unknown : Unknown
  pub fio_s_ifmt : ℕ
  pub fio_s_ifdir : ℕ
  pub fio_s_ifreg : ℕ
  pub fio_s_iflnk : ℕ
  pub iomanx_o_rdwr : ℕ
  pub iomanx_o_creat : ℕ

-- A derived `PartialEq` over integers decides equality.
pub record IsLawful (b : Bindings) : Type 0 where
  pub stat_eq_iff : (x y : b.Stat) → (b.stat_eq x y ≡ true) ↔ (x ≡ y)
  pub unknown_eq_iff : (x y : b.Unknown) → (b.unknown_eq x y ≡ true) ↔ (x ≡ y)

-- `iox_dirent_t`; the name is an array of `c_char`, each as the byte that it holds.
pub record Dirent (b : Bindings) : Type 0 where
  pub stat : b.Stat
  pub name : Text
  pub unknown : b.Unknown
