-- ===== src/Hdd/Open/Refines/Returns.antt =====
-- How `PS2HDD::open` ends, read off its contract.
use ps2hdd_rs.Prelude.{
  suc, ◌≤◌, ◌≡◌, refl, sym, ap, ◌∙◌, Text, bytes, [], ◌∷◌, ◌++◌, Bool, true, false, ltb, length,
  drop, length-append, length-drop, none, ok, err, Outcome, returns, arith, Bool-cases, inl, inr,
  ◌⊎◌, pos,
}
use ps2hdd_rs.Ffi.Laws.{Negatable}
use ps2hdd_rs.Std.CString.{NoNul}
use ps2hdd_rs.Std.CString.Laws.{cstring_new-cases, cstring_new-NoNul}
use ps2hdd_rs.Std.Format.{decimal}
use ps2hdd_rs.Std.Utf8.{from_utf8_lossy, IsUtf8}
use ps2hdd_rs.Std.Utf8.Laws.{from_utf8-cases, from_utf8-IsUtf8}
use ps2hdd_rs.Hdd.Open.{release, open_marked, open_device}
use ps2hdd_rs.Hdd.Open.Drivers.{init_drivers-closed}
use ps2hdd_rs.Hdd.Open.Refines.{judge_path, written, open_promised, open_device-open_promised}
use ps2hdd_rs.Sys.Bindings.{Bindings}
use ps2hdd_rs.Sys.Platform.{Platform}
use ps2hdd_rs.Sys.World.{World, ◌>>=◌}

-- A path is taken with no more than 255 bytes, or refused.
judge_path-cases :
    (path : Text) (is_file : Bool)
    → ((judge_path path is_file ≡ ok path) × (length path ≤ 255))
      ⊎ ((e : Text) × (judge_path path is_file ≡ err e))
unfolding judge_path
judge_path-cases path false = inr (_, refl)
judge_path-cases path true = elim (from_utf8-cases path) [
  | inr (e, bad) ↦ inr (bytes "could not convert path to slice", rw bad)
  | inl (fine, u) ↦ elim (cstring_new-cases path) [
    | inr (e, bad) ↦ inr (bytes "could not convert path slice to C String: " ++ e, rw (fine, bad))
    | inl (whole, n) ↦ elim (Bool-cases (ltb 255 (length path))) [
      | inl long ↦ inr (
        bytes "Path of length "
            ++ (decimal (length path) ++ bytes " is too long to be null-terminated"),
        rw (fine, whole, long),
      )
      | inr fits ↦ inl (rw (fine, whole, fits), ground arith)
    ]
  ]
]

pub length-written :
    (path cells : Text) → length path ≤ 255 → length cells ≡ 256 → length (written path cells) ≡ 256
length-written path cells h k = omega (
  arith,
  length-append path (0 ∷ drop (suc (length path)) cells),
  length-drop (suc (length path)) cells,
)

-- A path that `open` can take, as far as its bytes go.
pub record IsOpenable (path : Text) : Type 0 where
  pub text : IsUtf8 path
  pub no_nul : NoNul path
  pub short : length path ≤ 255

judge_path-IsOpenable : (path : Text) → IsOpenable path → judge_path path true ≡ ok path
unfolding judge_path
judge_path-IsOpenable path h =
    rw (from_utf8-IsUtf8 path h.text, cstring_new-NoNul path h.no_nul) (ground (arith, h.short))

module _ {b : Bindings} (p : Platform b) where
  -- What `open` needs of the platform in order to return.
  pub record Tame : Type 0 where
    pub apa : (cells : Text) (s : p.State) → Negatable p (p.init_apa cells s).0
    pub pfs : (s : p.State) → Negatable p (p.init_pfs s).0
    pub unnamed : (s : p.State) → p.is_file [] s ≡ false

  -- What is sound about an end: it is an `Ok` or an `Err`, and the array has its size.
  abbrev pub Returned {ℓ} : {A : Type ℓ} → Outcome A × World p → Type 0
  Returned (r, w) = (returns r ≡ true) × (length w.atad_device_path ≡ 256)

  promised-Returned :
      (path cells : Text) (s : p.State) (flag : Bool)
      → Tame
      → length cells ≡ 256
      → Returned (
          open_promised p path
            (record { is_device_active = flag; atad_device_path = cells; outside = s }))
  unfolding open_promised ◌>>=◌
  promised-Returned path cells s true tame size = (refl, size)
  promised-Returned path cells s false tame size = elim (judge_path-cases path (p.is_file path s)) [
    | inr (e, bad) ↦ rw bad (refl, size)
    | inl (fine, short) ↦
        let w : World p = record {
          is_device_active = true;
          atad_device_path = written path cells;
          outside = s;
        } in
        let keeps = length-written path cells short size in
        rw fine (elim (init_drivers-closed p w (tame.apa _ _) (tame.pfs _)) [
          | inl (apa, pfs, e) ↦ rw e (refl, keeps)
          | inr (inl (apa, m, e)) ↦ rw e (refl, keeps)
          | inr (inr (apa, pfs, m, e)) ↦ rw e (refl, keeps)
        ])
  ]

  -- On a tame platform `open` returns, and the array keeps its size.
  pub open_device-Returned :
      (path : Text) (w : World p)
      → Tame
      → length w.atad_device_path ≡ 256
      → Returned (open_device p path w)
  open_device-Returned path w tame size =
      rw (open_device-open_promised p path w size (tame.unnamed w.outside))
        (promised-Returned path w.atad_device_path w.outside w.is_device_active tame size)

  -- The world behind an `open` that succeeds.
  abbrev pub opened_world : Text → World p → World p
  opened_world path w =
      let (apa, s₁) = p.init_apa (written path w.atad_device_path) w.outside in
      let (pfs, s₂) = p.init_pfs s₁ in
      record {
        is_device_active = true;
        atad_device_path = written path w.atad_device_path;
        outside = s₂;
      }

  -- Both drivers start on this path.
  abbrev pub Starts : Text → World p → Type 0
  Starts path w =
      let (apa, s₁) = p.init_apa (written path w.atad_device_path) w.outside in
      let (pfs, s₂) = p.init_pfs s₁ in (apa ≡ pos 0) × (pfs ≡ pos 0)

  promised-opens :
      (path : Text) (w : World p)
      → Tame
      → IsOpenable path
      → w.is_device_active ≡ false
      → p.is_file path w.outside ≡ true
      → Starts path w
      → open_promised p path w
        ≡ (ok (record { path = path; pfs = none; hdlfs = none }), opened_world path w)
  unfolding open_promised ◌>>=◌
  promised-opens path w tame fine idle file (zero, zero') =
      let v : World p = record {
        is_device_active = true;
        atad_device_path = written path w.atad_device_path;
        outside = w.outside;
      } in
      rw (idle, file, judge_path-IsOpenable path fine)
        (elim (init_drivers-closed p v (tame.apa _ _) (tame.pfs _)) [
          | inl (apa, pfs, e) ↦ rw e
          | inr (inl (apa, m, e)) ↦ absurd (apa zero)
          | inr (inr (apa, pfs, m, e)) ↦ absurd (pfs zero')
        ])

  -- `open` succeeds where the path is good and the drivers start.
  pub open_device-opens :
      (path : Text) (w : World p)
      → Tame
      → IsOpenable path
      → w.is_device_active ≡ false
      → length w.atad_device_path ≡ 256
      → p.is_file path w.outside ≡ true
      → Starts path w
      → open_device p path w
        ≡ (ok (record { path = path; pfs = none; hdlfs = none }), opened_world path w)
  open_device-opens path w tame fine idle size file starts =
      open_device-open_promised p path w size (tame.unnamed w.outside)
      ∙ promised-opens path w tame fine idle file starts

  pub length-opened_world :
      (path : Text) (w : World p)
      → IsOpenable path
      → length w.atad_device_path ≡ 256
      → length (opened_world path w).atad_device_path ≡ 256
  length-opened_world path w fine size = length-written path w.atad_device_path fine.short size

  promised-refuses :
      (path cells : Text) (s : p.State)
      → open_device p path
          (record { is_device_active = true; atad_device_path = cells; outside = s })
        ≡ (
          err (bytes "Only one PS2HDD instance may be mounted at a time"),
          record { is_device_active = true; atad_device_path = cells; outside = s },
        )
  unfolding open_device ◌>>=◌
  promised-refuses path cells s = refl

  -- While a disk is open, `open` is an error, and changes nothing.
  pub open_device-refuses :
      (path : Text) (w : World p)
      → w.is_device_active ≡ true
      → open_device p path w ≡ (err (bytes "Only one PS2HDD instance may be mounted at a time"), w)
  open_device-refuses path w busy =
      let same : w ≡ record w { is_device_active = true } =
        ap (λ (f : Bool). record w { is_device_active = f }) busy in
      ap (open_device p path) same
      ∙ promised-refuses path w.atad_device_path w.outside
      ∙ ap (λ (v : World p). (err (bytes "Only one PS2HDD instance may be mounted at a time"), v))
          (sym same)

  missing-cells :
      (path cells : Text) (s : p.State)
      → p.is_file path s ≡ false
      → open_device p path
          (record { is_device_active = false; atad_device_path = cells; outside = s })
        ≡ (
          err (from_utf8_lossy path ++ bytes ": No such file"),
          record { is_device_active = false; atad_device_path = cells; outside = s },
        )
  unfolding open_device open_marked release ◌>>=◌
  missing-cells path cells s missing = rw missing

  -- A file that is not there is an error, and nothing changes.
  pub open_device-missing :
      (path : Text) (w : World p)
      → w.is_device_active ≡ false
      → p.is_file path w.outside ≡ false
      → open_device p path w ≡ (err (from_utf8_lossy path ++ bytes ": No such file"), w)
  open_device-missing path w idle missing =
      let same : w ≡ record w { is_device_active = false } =
        ap (λ (f : Bool). record w { is_device_active = f }) idle in
      ap (open_device p path) same
      ∙ missing-cells path w.atad_device_path w.outside missing
      ∙ ap (λ (v : World p). (err (from_utf8_lossy path ++ bytes ": No such file"), v)) (sym same)
