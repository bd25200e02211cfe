-- ===== src/Fs/Modes.antt =====
-- What the mode of an entry says: the digit that the mask keeps.
use ps2hdd_rs.Prelude.{◌/◌, ◌%◌, ◌≡◌, ◌↔◌, true, arith}
use ps2hdd_rs.Fs.{FileType, is_dir, is_file, is_symlink}
use ps2hdd_rs.Std.Masks.{bit_and-f000}
use ps2hdd_rs.Sys.Bindings.{Bindings}

-- The constants of the driver's header: the mask of the kind, and the three kinds.
pub record HasModes (b : Bindings) : Type 0 where
  pub mask : b.fio_s_ifmt ≡ 0xf000
  pub directory : b.fio_s_ifdir ≡ 0x1000
  pub regular : b.fio_s_ifreg ≡ 0x2000
  pub link : b.fio_s_iflnk ≡ 0x4000

-- With the constants of the driver's header, a mode is that of a directory, a file or a symbolic
-- link exactly if its fourth hexadecimal digit from the right is 1, 2 or 4.
pub FileType_iff :
    {b : Bindings} (t : FileType)
    → HasModes b
    → ((is_dir b t ≡ true) ↔ (t.mode / 0x1000 % 16 ≡ 1))
      × ((is_file b t ≡ true) ↔ (t.mode / 0x1000 % 16 ≡ 2))
      × ((is_symlink b t ≡ true) ↔ (t.mode / 0x1000 % 16 ≡ 4))
unfolding is_dir is_file is_symlink
FileType_iff t modes =
    ground (arith, modes.mask, modes.directory, modes.regular, modes.link, bit_and-f000 t.mode)
