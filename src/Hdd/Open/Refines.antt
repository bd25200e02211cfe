-- ===== src/Hdd/Open/Refines.antt =====
-- A contract for `PS2HDD::open`, written without the writes to the array.
pub mod Returns
use ps2hdd_rs.Prelude.{
  suc, ◌<◌, ◌≡◌, refl, ap, ◌∙◌, Text, bytes, [], ◌∷◌, ◌++◌, Bool, true, false, ltb, length, drop,
  if◌then◌else◌, none, ok, err, Outcome, arith, text_eq_refl, Bool-cases, inl, inr,
}
use ps2hdd_rs.Std.CString.{cstring_new, read_str, NoNul}
use ps2hdd_rs.Std.CString.Laws.{cstring_new-cases, read_str-terminated}
use ps2hdd_rs.Std.Format.{decimal}
use ps2hdd_rs.Std.Utf8.{from_utf8, from_utf8_lossy, IsUtf8}
use ps2hdd_rs.Std.Utf8.Laws.{from_utf8-cases}
use ps2hdd_rs.Hdd.Open.{
  release, write_device_path, check_device_path, init_drivers, open_marked, open_device,
}
use ps2hdd_rs.Hdd.Open.Buffer.{write_bytes_lem}
use ps2hdd_rs.Hdd.Types.{Ps2hdd}
use ps2hdd_rs.Sys.Bindings.{Bindings}
use ps2hdd_rs.Sys.Platform.{Platform}
use ps2hdd_rs.Sys.World.{World, pure, on_err, ◌>>=◌}

-- Why a path is refused, in the order of the checks, or the path.
judge_length : Text → Outcome Text
judge_length path =
    if ltb 255 (length path)
    then err (
        bytes "Path of length "
        ++ (decimal (length path) ++ bytes " is too long to be null-terminated"))
    else ok path

judge_nul : Text → Outcome Text → Outcome Text
judge_nul path (ok name) = judge_length path
judge_nul path (err e) = err (bytes "could not convert path slice to C String: " ++ e)
judge_nul path _ = ok path

judge_text : Text → Outcome Text → Outcome Text
judge_text path (ok s) = judge_nul path (cstring_new path)
judge_text path (err e) = err (bytes "could not convert path to slice")
judge_text path _ = ok path

pub judge_path : Text → Bool → Outcome Text
unfolding judge_text judge_nul judge_length
judge_path path is_file =
    if is_file
    then judge_text path (from_utf8 path)
    else err (from_utf8_lossy path ++ bytes ": No such file")

-- The array with a path written into it.
abbrev pub written : Text → Text → Text
written path cells = path ++ 0 ∷ drop (suc (length path)) cells

-- A file's path is not empty where no file has an empty one.
length-named :
    {b : Bindings} (p : Platform b) (path : Text) (s : p.State)
    → p.is_file [] s ≡ false
    → p.is_file path s ≡ true
    → 0 < length path
length-named p [] s h k = absurd (cc)
length-named p (c ∷ path) s h k = omega arith

module _ {b : Bindings} (p : Platform b) where
  abbrev start : Text → World p → Outcome Ps2hdd × World p
  start path w =
      (init_drivers p >>= λ _. pure (record { path = path; pfs = none; hdlfs = none }))
        (record w { is_device_active = true; atad_device_path = written path w.atad_device_path })

  abbrev judged : Text → World p → Outcome Text → Outcome Ps2hdd × World p
  judged path w (ok _) = start path w
  judged path w (err e) = (err e, w)
  judged path w _ = start path w

  pub open_promised : Text → World p → Outcome Ps2hdd × World p
  open_promised path w =
      if w.is_device_active
      then (err (bytes "Only one PS2HDD instance may be mounted at a time"), w)
      else judged path w (judge_path path (p.is_file path w.outside))

  write_device_path_lem :
      (path : Text) (w : World p)
      → 0 < length path
      → length path < length w.atad_device_path
      → write_device_path p path w
        ≡ (ok tt, record w { atad_device_path = written path w.atad_device_path })
  unfolding write_device_path ◌>>=◌
  write_device_path_lem path w h k = rw (write_bytes_lem path w.atad_device_path h k)

  check_device_path_lem :
      (path cells : Text) (w : World p)
      → NoNul path
      → IsUtf8 path
      → w.atad_device_path ≡ written path cells
      → check_device_path p path w ≡ (ok tt, w)
  unfolding check_device_path ◌>>=◌ on_err
  check_device_path_lem path cells w h u e =
      let read = read_str-terminated path (drop (suc (length path)) cells) h u in
      let found : read_str w.atad_device_path ≡ ok path = ap read_str e ∙ read in
      rw (found, text_eq_refl path)

  -- The path's part of `open`, behind the first check.
  open_marked_lem :
      (path cells : Text) (s : p.State)
      → length cells ≡ 256
      → p.is_file [] s ≡ false
      → open_marked p path
          (record { is_device_active = true; atad_device_path = cells; outside = s })
        ≡ open_promised path
            (record { is_device_active = false; atad_device_path = cells; outside = s })
  unfolding open_marked open_promised judge_path release ◌>>=◌ on_err
  open_marked_lem path cells s size unnamed = elim (Bool-cases (p.is_file path s)) [
    | inr missing ↦ rw missing
    | inl file ↦ elim (from_utf8-cases path) [
      | inr (e, bad) ↦ rw (file, bad)
      | inl (fine, u) ↦ elim (cstring_new-cases path) [
        | inr (e, bad) ↦ rw (file, fine, bad)
        | inl (whole, n) ↦ elim (Bool-cases (ltb 255 (length path))) [
          | inl long ↦ rw (file, fine, whole, long)
          | inr fits ↦
              let w : World p = record {
                is_device_active = true;
                atad_device_path = cells;
                outside = s;
              } in
              let prepared : World p = record w { atad_device_path = written path cells } in
              let some_path = length-named p path s unnamed file in
              rw (
                file,
                fine,
                whole,
                fits,
                write_device_path_lem path w some_path (ground arith),
                check_device_path_lem path cells prepared n u refl,
              )
        ]
      ]
    ]
  ]

  open_fields :
      (path : Text) (flag : Bool) (cells : Text) (s : p.State)
      → length cells ≡ 256
      → p.is_file [] s ≡ false
      → open_device p path
          (record { is_device_active = flag; atad_device_path = cells; outside = s })
        ≡ open_promised path
            (record { is_device_active = flag; atad_device_path = cells; outside = s })
  unfolding open_device ◌>>=◌
  open_fields path true cells s size unnamed = unfold open_promised in refl
  open_fields path false cells s size unnamed = open_marked_lem path cells s size unnamed

  -- With an array of 256 bytes, and no file that has an empty name, `open` does what `open_promised`
  -- says: it refuses a second disk, it refuses a bad path with the message of the first check that
  -- fails and leaves the world as it was, and it starts the drivers with a good path, ended by a
  -- NUL, in the array. The comparison after the write never fails, and no write is out of bounds.
  pub open_device-open_promised :
      (path : Text) (w : World p)
      → length w.atad_device_path ≡ 256
      → p.is_file [] w.outside ≡ false
      → open_device p path w ≡ open_promised path w
  open_device-open_promised path w =
      open_fields path w.is_device_active w.atad_device_path w.outside
