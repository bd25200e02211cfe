-- ===== src/Fs/Laws.antt =====
-- What a listing says of its entries.
use ps2hdd_rs.Prelude.{ℕ, ◌*◌, ◌<◌, ◌≡◌, ◌↔◌, Option, none, some, ok, arith}
use ps2hdd_rs.Fs.{PartEntry, kind_of_mode, part_entry}
use ps2hdd_rs.PartitionKind.{PartitionKind, discriminant}
use ps2hdd_rs.PartitionKind.Laws.{kind_of_number_iff}
use ps2hdd_rs.Std.CString.{read_str}
use ps2hdd_rs.Sys.Bindings.{Bindings, Dirent}

-- The kind that a mode stands for: 0 is none, and a kind's number is the kind.
abbrev pub KindOf : ℕ → Option PartitionKind → Type 0
KindOf mode none = mode ≡ 0
KindOf mode (some k) = discriminant k ≡ mode

discriminant-pos : (k : PartitionKind) → 0 < discriminant k
unfolding discriminant
discriminant-pos PartitionKind.mbr = omega arith
discriminant-pos _ = omega arith

kind_of_mode_inv :
    (mode : ℕ) (kind : Option PartitionKind) → kind_of_mode mode ≡ ok kind → KindOf mode kind
unfolding kind_of_mode
kind_of_mode_inv mode none h = ground arith
kind_of_mode_inv mode (some k) h = ground (arith, (kind_of_number_iff mode k).0)

kind_of_mode_of :
    (mode : ℕ) (kind : Option PartitionKind) → KindOf mode kind → kind_of_mode mode ≡ ok kind
unfolding kind_of_mode
kind_of_mode_of mode none h = ground arith
kind_of_mode_of mode (some k) h =
    ground (arith, (kind_of_number_iff mode k).1 h, discriminant-pos k)

module _ {b : Bindings} where
  -- The entry that a directory entry stands for.
  abbrev pub Describes : Dirent b → PartEntry → Type 0
  Describes d e =
      (read_str d.name ≡ ok e.name) × KindOf (b.mode d.stat) e.kind × (e.size ≡ b.size d.stat * 512)

  part_entry_inv : (d : Dirent b) (e : PartEntry) → part_entry d ≡ ok e → Describes d e
  unfolding part_entry
  part_entry_inv d e h = ground (arith, kind_of_mode_inv (b.mode d.stat) e.kind)

  part_entry_of : (d : Dirent b) (e : PartEntry) → Describes d e → part_entry d ≡ ok e
  unfolding part_entry
  part_entry_of d e (named, kind, size) =
      rw (named, part_entry) (rw (kind_of_mode_of (b.mode d.stat) e.kind kind, size))

  -- A directory entry becomes a partition entry exactly if its name is text up to a NUL and its
  -- mode is 0 or a kind's number; the result has that name and kind, and 512 bytes to a sector.
  pub part_entry_iff : (d : Dirent b) (e : PartEntry) → (part_entry d ≡ ok e) ↔ Describes d e
  part_entry_iff d e = (part_entry_inv d e, part_entry_of d e)
