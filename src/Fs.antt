-- ===== src/Fs.antt =====
-- ps2hdd/src/fs.rs: file types, directory entries and partition entries.
pub mod Laws
pub mod Modes
use Prim.Native.Nat.{bit_and}
use ps2hdd_rs.Prelude.{
  List, [], ◌∷◌, ◌&&◌, text_eq, ℕ, ◌*◌, Text, bytes, Bool, true, false, ◌==◌, if◌then◌else◌, Option,
  none, some, Outcome, ok, err, panic, ◌>>?◌,
}
use ps2hdd_rs.PartitionKind.{PartitionKind, discriminant, kind_of_number}
use ps2hdd_rs.Std.CString.{from_ptr, read_str}
use ps2hdd_rs.Sys.Bindings.{Bindings, Dirent}

pub record FileType : Type 0 where
  pub mode : ℕ

module _ (b : Bindings) where
  unfoldable pub is : FileType → ℕ → Bool
  is self mode = bit_and self.mode b.fio_s_ifmt == mode

  unfoldable pub is_dir : FileType → Bool
  unfolding is
  is_dir self = is self b.fio_s_ifdir

  unfoldable pub is_file : FileType → Bool
  unfolding is
  is_file self = is self b.fio_s_ifreg

  unfoldable pub is_symlink : FileType → Bool
  unfolding is
  is_symlink self = is self b.fio_s_iflnk

pub record DirEntry (b : Bindings) : Type 0 where
  pub entry : Dirent b
  pub root : Text

module _ {b : Bindings} where
  -- `DirEntry::new`
  abbrev pub new : Dirent b → Text → DirEntry b
  new entry root = record { entry = entry; root = root }

  -- `DirEntry::path` is `unimplemented!()`.
  unfoldable pub path : DirEntry b → Outcome Text
  path self = panic (bytes "not implemented")

  name_bytes : DirEntry b → Outcome Text
  name_bytes self = from_ptr self.entry.name

  unfoldable pub file_name : DirEntry b → Outcome Text
  unfolding name_bytes
  file_name self = name_bytes self

  unfoldable pub file_type : DirEntry b → Outcome FileType
  file_type self = ok (record { mode = b.mode self.entry.stat })

pub record PartEntry : Type 0 where
  pub name : Text
  pub kind : Option PartitionKind
  -- In bytes.
  pub size : ℕ

-- The derived `PartialEq` of `Option<PartitionKind>` and of `PartEntry`, and that of a `Vec`.
unfoldable pub kind_eq : Option PartitionKind → Option PartitionKind → Bool
unfolding discriminant
kind_eq none none = true
kind_eq (some k) (some l) = discriminant k == discriminant l
kind_eq _ _ = false

unfoldable pub entry_eq : PartEntry → PartEntry → Bool
unfolding kind_eq text_eq
entry_eq self other =
    text_eq self.name other.name && kind_eq self.kind other.kind && self.size == other.size

unfoldable pub entries_eq : List PartEntry → List PartEntry → Bool
unfolding entry_eq
entries_eq [] [] = true
entries_eq (e ∷ es) (d ∷ ds) = entry_eq e d && entries_eq es ds
entries_eq _ _ = false

-- The kind of a partition by the mode of its entry; 0 is none.
unfoldable pub kind_of_mode : ℕ → Outcome (Option PartitionKind)
unfolding kind_of_number
kind_of_mode mode =
    if mode == 0x0000 then ok none else (kind_of_number mode >>? λ kind. ok (some kind))

module _ {b : Bindings} where
  -- `TryFrom<iox_dirent_t> for PartEntry`
  unfoldable pub part_entry : Dirent b → Outcome PartEntry
  unfolding kind_of_mode read_str
  part_entry dirent = read_str dirent.name >>? λ name. kind_of_mode (b.mode dirent.stat) >>? λ kind.
      ok (record { name = name; kind = kind; size = b.size dirent.stat * 512 })
