-- ===== src/Sys/Dirent.antt =====
-- ps2hdd-sys/src/lib.rs: `PartialEq` and `Debug` of `iox_dirent_t`.
pub mod Laws
pub mod DebugLaws
use ps2hdd_rs.Prelude.{
  bytes, ◌++◌, Outcome, ok, ◌>>?◌, ℕ, Bool, ◌&&◌, Text, text_eq, [], ◌∷◌, Option, none, some,
  length, take, zero, suc, List,
}
use ps2hdd_rs.Std.CString.{nul_position, from_ptr}
use ps2hdd_rs.Std.Escape.{debug_cstr}
use ps2hdd_rs.Sys.Bindings.{Bindings, Dirent}

abbrev end_of : Text → Option ℕ → ℕ
end_of name (some index) = index
end_of name none = length name

-- The end of the name: its first NUL, or the length of the array.
unfoldable pub nul_pos : Text → ℕ
unfolding nul_position
nul_pos name = end_of name (nul_position 0 name)

-- `name[..nul_pos]`
unfoldable pub name_slice : Text → Text
unfolding nul_pos
name_slice name = take (nul_pos name) name

unfoldable pub dirent_eq : {b : Bindings} → Dirent b → Dirent b → Bool
unfolding name_slice text_eq
dirent_eq {b} self other =
    text_eq (name_slice self.name) (name_slice other.name)
    && b.stat_eq self.stat other.stat
    && b.unknown_eq self.unknown other.unknown

-- `Debug` on one line, as `{:?}` writes it.
unfoldable pub fmt : {b : Bindings} → Dirent b → Outcome Text
unfolding from_ptr debug_cstr
fmt {b} self = from_ptr self.name >>? λ name. ok (
    bytes "iox_dirent_t { name: "
    ++ (debug_cstr name ++ (bytes ", stat: " ++ (b.stat_debug self.stat ++ bytes " }"))))
