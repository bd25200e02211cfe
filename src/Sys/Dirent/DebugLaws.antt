-- ===== src/Sys/Dirent/DebugLaws.antt =====
-- Reading back what `Debug` of a directory entry writes.
use ps2hdd_rs.Prelude.{
  ◌<◌, ◌≡◌, Text, bytes, [], ◌∷◌, ◌++◌, ◌==◌, Option, some, All, ok, >>?-eq-ok, drop, length,
  Bool-cases, inl, inr,
}
use ps2hdd_rs.Std.CString.{from_ptr}
use ps2hdd_rs.Std.Escape.Laws.{read_quoted, read_quoted-debug_cstr}
use ps2hdd_rs.Sys.Bindings.{Bindings, Dirent}
use ps2hdd_rs.Sys.Dirent.{fmt}
use ps2hdd_rs.Sys.Dirent.Laws.{until_nul, until_nul-from_ptr}

-- The name that a printed entry shows, and the text behind it.
pub read_fmt : Text → Option (Text × Text)
read_fmt t = read_quoted (drop (length (bytes "iox_dirent_t { name: ")) t)

until_nul-All : (s : Text) → All (λ c. c < 256) s → All (λ c. c < 256) (until_nul s)
unfolding until_nul
until_nul-All [] h = tt
until_nul-All (c ∷ s) h = elim (Bool-cases (c == 0)) [
  | inl nul ↦ rw nul tt
  | inr other ↦ rw other (h.0, until_nul-All s h.1)
]

ok-injective {ℓ} : {A : Type ℓ} {a c : A} → ok a ≡ ok c → a ≡ c
ok-injective h = cc

-- If an entry of bytes can be printed, the text shows its name up to the first NUL, exactly, and
-- behind that its stat.
pub read_fmt-fmt :
    {b : Bindings} (x : Dirent b) {t : Text}
    → All (λ c. c < 256) x.name
    → fmt x ≡ ok t
    → read_fmt t ≡ some (until_nul x.name, bytes ", stat: " ++ (b.stat_debug x.stat ++ bytes " }"))
unfolding fmt read_fmt bytes
read_fmt-fmt {b} x {t} h e =
    let (name, found, same) = >>?-eq-ok (from_ptr x.name) _ e in
    let shown : until_nul x.name ≡ name = until_nul-from_ptr x.name found in
    rw (← ok-injective same, ← shown)
      (read_quoted-debug_cstr (until_nul x.name) _ (until_nul-All x.name h))
