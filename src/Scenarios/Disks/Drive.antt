-- ===== src/Scenarios/Disks/Drive.antt =====
-- What the scenarios on partitions ask of the APA driver: a table of partitions behind `hdd0:`.
use ps2hdd_rs.Prelude.{
  ℕ, ◌<◌, ◌≡◌, refl, ap, ◌∙◌, true, bytes, List, [], ◌∷◌, ◌++◌, Option, none, some, ok, >>?-eq-ok,
  length, pos, text_eq_refl, ==_refl,
}
use ps2hdd_rs.Ffi.Laws.{ok_on_zero_iff}
use ps2hdd_rs.Fs.{PartEntry, part_entry, kind_eq, entry_eq, entries_eq}
use ps2hdd_rs.Hdd.Partitions.{
  initialize, list_partitions, create_partition, format_partition, mkpart_strpath, open_flags,
  format_device, is_power_of_two, count_ones, size_str,
}
use ps2hdd_rs.Hdd.Partitions.Creation.{create_partition_formats}
use ps2hdd_rs.Hdd.Partitions.Formatting.{format_partition-ok}
use ps2hdd_rs.Hdd.Partitions.Listing.{traverse_entries, list_partitions-traverse, hdd_root_cstring}
use ps2hdd_rs.PartitionKind.{PartitionKind, FormattablePartitionKind}
use ps2hdd_rs.ReadDir.Laws.{Session}
use ps2hdd_rs.Scenarios.{demo_file_path}
use ps2hdd_rs.Scenarios.Disks.{small, default_entries, testpart}
use ps2hdd_rs.Scenarios.Host.{Host}
use ps2hdd_rs.Std.CString.{cstring_new}
use ps2hdd_rs.Std.CString.Laws.{NoNul-cstring_new}
use ps2hdd_rs.Std.Format.{decimal}
use ps2hdd_rs.Sys.Bindings.{Bindings, Dirent}
use ps2hdd_rs.Sys.Platform.{Platform}
use ps2hdd_rs.Sys.World.{World, ◌>>=◌}

-- `Holds ds` says that the table has these entries. Formatting the disk makes the default ones,
-- opening a request adds one, and neither formatting a partition nor a listing changes them.
pub record Drive {b : Bindings} (p : Platform b) (host : Host p (demo_file_path p)) : Type 1 where
  pub defaults : List (Dirent b)
  pub added : Dirent b
  pub shown : traverse_entries defaults ≡ ok default_entries
  pub added_shown : part_entry added ≡ ok (small testpart PartitionKind.pfs)
  pub Holds : List (Dirent b) → p.State → Type 0
  pub Holds-There : (ds : List (Dirent b)) (s : p.State) → Holds ds s → host.There s
  pub disk_formatted :
      (s : p.State)
      → host.There s
      → (s' : p.State) × (p.iomanx_format (bytes "hdd0:") none none 0 s ≡ (pos 0, s'))
        × Holds defaults s'
  pub partition_made :
      (ds : List (Dirent b)) (s : p.State)
      → Holds ds s
      → (handle : ℕ) × (s₁ : p.State) × (s₂ : p.State) × (p.iomanx_open
            (bytes "hdd0:TESTPART,,,128M,PFS")
            (open_flags p)
            s
          ≡ (pos handle, s₁))
        × (p.iomanx_close (pos handle) s₁ ≡ (pos 0, s₂))
        × Holds (ds ++ added ∷ []) s₂
  pub partition_formatted :
      (ds : List (Dirent b)) (s : p.State)
      → Holds ds s
      → (s' : p.State) × (p.iomanx_format
            (bytes "pfs0:")
            (some (bytes "hdd0:TESTPART"))
            (some (pos 8192 ∷ pos 0x2d66 ∷ pos 0x00000000 ∷ []))
            12
            s
          ≡ (pos 0, s'))
        × Holds ds s'
  pub listed :
      (ds : List (Dirent b)) (s : p.State)
      → Holds ds s
      → (s' : p.State) × Session p (bytes "hdd0:") ds s s' × Holds ds s'

kind_eq_refl : (k : Option PartitionKind) → kind_eq k k ≡ true
unfolding kind_eq
kind_eq_refl none = refl
kind_eq_refl (some k) = ==_refl _

pub entries_eq_refl : (es : List PartEntry) → entries_eq es es ≡ true
unfolding entries_eq entry_eq
entries_eq_refl [] = refl
entries_eq_refl (e ∷ es) =
    rw (text_eq_refl e.name, kind_eq_refl e.kind, ==_refl e.size) (entries_eq_refl es)

ok-injective {ℓ} : {A : Type ℓ} {a c : A} → ok a ≡ ok c → a ≡ c
ok-injective h = cc

pub traverse_entries-append :
    {b : Bindings} (ds : List (Dirent b)) (d : Dirent b) {es : List PartEntry} {e : PartEntry}
    → traverse_entries ds ≡ ok es
    → part_entry d ≡ ok e
    → traverse_entries (ds ++ d ∷ []) ≡ ok (es ++ e ∷ [])
traverse_entries-append [] d {es} {e} h k = let empty : es ≡ [] = cc in rw (k, empty)
traverse_entries-append (d₀ ∷ ds) d {es} {e} h k =
    let (e₀, first, more) = >>?-eq-ok (part_entry d₀) _ h in
    let (es₀, rest, whole) = >>?-eq-ok (traverse_entries ds) _ more in
    rw first (
      rw (traverse_entries-append ds d rest k)
        (ap (λ (r : List PartEntry). ok (r ++ e ∷ [])) (ok-injective whole)))

module _ {b : Bindings} (p : Platform b) where
  pub initialize_lem :
      (w : World p) {s' : p.State}
      → p.iomanx_format (bytes "hdd0:") none none 0 w.outside ≡ (pos 0, s')
      → initialize p w ≡ (ok tt, record w { outside = s' })
  unfolding initialize ◌>>=◌
  initialize_lem w e = rw hdd_root_cstring (
      rw e (rw ((ok_on_zero_iff p (pos 0) (pos 0) (bytes "HDD formatting failed")).1 (refl, refl))))

  testpart_formats :
      (w : World p) {s' : p.State}
      → p.iomanx_format
          (bytes "pfs0:")
          (some (bytes "hdd0:TESTPART"))
          (some (pos 8192 ∷ pos 0x2d66 ∷ pos 0x00000000 ∷ []))
          12
          w.outside
        ≡ (pos 0, s')
      → format_partition p testpart FormattablePartitionKind.pfs w
        ≡ (ok tt, record w { outside = s' })
  unfolding cstring_new format_device bytes
  testpart_formats w e =
      format_partition-ok p testpart FormattablePartitionKind.pfs w
        (NoNul-cstring_new testpart refl).1 e

  pub testpart_created :
      (handle : ℕ) (w : World p) {s₁ s₂ s₃ : p.State}
      → p.iomanx_open (bytes "hdd0:TESTPART,,,128M,PFS") (open_flags p) w.outside ≡ (pos handle, s₁)
      → p.iomanx_close (pos handle) s₁ ≡ (pos 0, s₂)
      → p.iomanx_format
          (bytes "pfs0:")
          (some (bytes "hdd0:TESTPART"))
          (some (pos 8192 ∷ pos 0x2d66 ∷ pos 0x00000000 ∷ []))
          12
          s₂
        ≡ (pos 0, s₃)
      → create_partition p testpart FormattablePartitionKind.pfs 128 w
        ≡ (ok tt, record w { outside = s₃ })
  unfolding is_power_of_two count_ones cstring_new mkpart_strpath size_str decimal bytes
  testpart_created handle w {s₂ = s₂} opens closes formats =
      create_partition_formats p testpart FormattablePartitionKind.pfs 128 handle w refl
        (NoNul-cstring_new (mkpart_strpath testpart FormattablePartitionKind.pfs 128) refl).1 opens
        closes
      ∙ testpart_formats (record w { outside = s₂ }) formats

  pub listed_lem :
      (fuel : ℕ) (ds : List (Dirent b)) (es : List PartEntry) (w : World p) (s' : p.State)
      → Session p (bytes "hdd0:") ds w.outside s'
      → length ds < fuel
      → traverse_entries ds ≡ ok es
      → list_partitions p fuel w ≡ (ok es, record w { outside = s' })
  listed_lem fuel ds es w s' session h all =
      let (result, world) = list_partitions-traverse p fuel ds w s' session h in
      let found = result ∙ all in let left = world es all in λ i. (found i, left i)
