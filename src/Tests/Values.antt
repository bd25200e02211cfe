-- ===== src/Tests/Values.antt =====
-- Results, kinds and entries.
use ps2hdd_rs.Prelude.{
  ℤ, ◌==◌, if◌then◌else◌, ℕ, ◌*◌, ◌<◌, pos, negsuc, bytes, [], ◌∷◌, ◌++◌, ◌≡◌, refl, ◌↔◌, true,
  false, ok, some, is_negative, is_nonzero, returns, arith, ==_iff, Text, All, ◌/◌, ◌%◌,
}
use ps2hdd_rs.Scenarios.Results.{return_err_on_negatives}
use ps2hdd_rs.Scenarios.Results.Laws.{return_err_on_negatives_iff}
use ps2hdd_rs.Sys.Platform.{Platform}
use ps2hdd_rs.Ffi.{ok_on_pred_or_strerror, ok_on_zero_or_strerror, ok_on_nonnegative_or_strerror}
use ps2hdd_rs.Ffi.Laws.{ok_on_zero_iff, ok_on_nonnegative_iff, ok_on_pred-returns}
use ps2hdd_rs.Fs.{PartEntry, part_entry, FileType, is_dir, is_file, is_symlink}
use ps2hdd_rs.Fs.Modes.{FileType_iff}
use ps2hdd_rs.Fs.Laws.{Describes, part_entry_iff}
use ps2hdd_rs.PartitionKind.{
  PartitionKind, FormattablePartitionKind, discriminant, formattable_discriminant, kind_of_number,
  to_formattable, from_formattable,
}
use ps2hdd_rs.PartitionKind.Laws.{kind_of_number_iff, to_formattable_iff}
use ps2hdd_rs.Std.CString.{from_ptr}
use ps2hdd_rs.Sys.Bindings.{IsLawful, Dirent}
use ps2hdd_rs.Sys.Dirent.{dirent_eq, fmt}
use ps2hdd_rs.Sys.Dirent.DebugLaws.{read_fmt, read_fmt-fmt}
use ps2hdd_rs.Std.Escape.{debug_cstr, escape_bytes, escape_default, hex_digit}
use ps2hdd_rs.Std.Format.{decimal}
use ps2hdd_rs.Sys.Dirent.Laws.{until_nul, dirent_eq_iff}
use ps2hdd_rs.Tests.Sim.{bindings, sim, dirent, stat_eq}

ok_on_zero_iff_example :
    (ok_on_zero_or_strerror sim (pos 0) (bytes "m") ≡ ok (pos 0))
    ↔ ((pos 0 ≡ pos 0) × (pos 0 ≡ pos 0))
ok_on_zero_iff_example = ok_on_zero_iff sim (pos 0) (pos 0) (bytes "m")

ok_on_nonnegative_iff_example :
    (ok_on_nonnegative_or_strerror sim (pos 3) (bytes "m") ≡ ok (pos 3))
    ↔ ((is_negative (pos 3) ≡ false) × (pos 3 ≡ pos 3))
ok_on_nonnegative_iff_example = ok_on_nonnegative_iff sim (pos 3) (pos 3) (bytes "m")

ok_on_pred-returns_example :
    returns (ok_on_pred_or_strerror sim (negsuc 1) (bytes "m") is_nonzero) ≡ true
ok_on_pred-returns_example = ok_on_pred-returns sim (negsuc 1) (bytes "m") is_nonzero refl

kind_of_number_iff_example :
    (kind_of_number 0x0100 ≡ ok PartitionKind.pfs) ↔ (discriminant PartitionKind.pfs ≡ 0x0100)
kind_of_number_iff_example = kind_of_number_iff 0x0100 PartitionKind.pfs

to_formattable_iff_example :
    ((to_formattable PartitionKind.hdl ≡ ok FormattablePartitionKind.hdl)
      ↔ (from_formattable FormattablePartitionKind.hdl ≡ PartitionKind.hdl))
    × (formattable_discriminant FormattablePartitionKind.hdl
        ≡ discriminant (from_formattable FormattablePartitionKind.hdl))
to_formattable_iff_example = to_formattable_iff PartitionKind.hdl FormattablePartitionKind.hdl

abbrev partition : Dirent bindings
partition = dirent (bytes "+OPL") 256 524288

abbrev entry : PartEntry
entry = record { name = bytes "+OPL"; kind = some PartitionKind.pfs; size = 524288 * 512 }

part_entry_iff_example : (part_entry partition ≡ ok entry) ↔ Describes partition entry
part_entry_iff_example = part_entry_iff partition entry

-- The mode of a directory with all its permissions.
abbrev directory : FileType
directory = record { mode = 0x11ff }

FileType_iff_example :
    ((is_dir bindings directory ≡ true) ↔ (0x11ff / 0x1000 % 16 ≡ 1))
    × ((is_file bindings directory ≡ true) ↔ (0x11ff / 0x1000 % 16 ≡ 2))
    × ((is_symlink bindings directory ≡ true) ↔ (0x11ff / 0x1000 % 16 ≡ 4))
FileType_iff_example =
    FileType_iff directory (record { mask = refl; directory = refl; regular = refl; link = refl })

stat_eq_lem : (x y : ℕ × ℕ) → (stat_eq x y ≡ true) ↔ (x ≡ y)
stat_eq_lem (m, n) (m', n') = ground arith

bindings-IsLawful : IsLawful bindings
bindings-IsLawful = record { stat_eq_iff = stat_eq_lem; unknown_eq_iff = ==_iff }

-- Bytes behind the NUL differ.
abbrev stale : Dirent bindings
stale = record { stat = (256, 524288); name = bytes "+OPL" ++ 0 ∷ b'x' ∷ []; unknown = 0 }

dirent_eq_iff_example : (dirent_eq partition stale ≡ true) ↔ (
    (until_nul partition.name ≡ until_nul stale.name)
    × (partition.stat ≡ stale.stat)
    × (partition.unknown ≡ stale.unknown))
dirent_eq_iff_example = dirent_eq_iff bindings-IsLawful partition stale

-- A quote, a newline and a byte beyond ASCII are escaped.
abbrev odd : Dirent bindings
odd = record { stat = (256, 7); name = 34 ∷ 10 ∷ 200 ∷ 0 ∷ b'x' ∷ []; unknown = 0 }

abbrev shown : Text
shown = bytes "iox_dirent_t { name: \"\\\"\\n\\xc8\", stat: 256 }"

fmt-odd : fmt odd ≡ ok shown
unfolding fmt from_ptr debug_cstr escape_bytes escape_default hex_digit bytes decimal
fmt-odd = refl

odd-bytes : All (λ c. c < 256) odd.name
odd-bytes = (omega arith, (omega arith, (omega arith, (omega arith, (omega arith, tt)))))

read_fmt-fmt_example :
    read_fmt shown
    ≡ some (until_nul odd.name, bytes ", stat: " ++ (bindings.stat_debug odd.stat ++ bytes " }"))
read_fmt-fmt_example = read_fmt-fmt odd odd-bytes fmt-odd

-- The texts of Darwin, on these numbers.
abbrev darwin_errors : ℤ → Text
darwin_errors (negsuc n) = bytes "Unknown error"
darwin_errors (pos n) =
    if n == 1
    then bytes "Operation not permitted"
    else if n == 5
    then bytes "Input/output error"
    else if n == 13
    then bytes "Permission denied"
    else bytes "Resource busy"

abbrev darwin : Platform bindings
darwin = record sim { strerror = darwin_errors }

return_err_on_negatives_iff_example : (return_err_on_negatives darwin ≡ ok tt) ↔ (
    (darwin.strerror (pos 1) ≡ bytes "Operation not permitted")
    × (darwin.strerror (pos 13) ≡ bytes "Permission denied")
    × (darwin.strerror (pos 5) ≡ bytes "Input/output error")
    × (darwin.strerror (pos 16) ≡ bytes "Resource busy"))
return_err_on_negatives_iff_example = return_err_on_negatives_iff darwin
