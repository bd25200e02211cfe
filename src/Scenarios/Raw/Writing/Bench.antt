-- ===== src/Scenarios/Raw/Writing/Bench.antt =====
-- What `format_list_partitions_and_write` asks of the machine that it runs on.
use ps2hdd_rs.Prelude.{ℕ, pos, ◌≡◌, Text, bytes, List, [], ◌∷◌, ◌++◌, ◌==◌, true, none, some, ok}
use Prim.Native.Nat.{bit_and}
use ps2hdd_rs.Hdd.Partitions.{open_flags}
use ps2hdd_rs.ReadDir.Laws.{Session}
use ps2hdd_rs.Scenarios.{demo_file_size}
use ps2hdd_rs.Scenarios.Raw.Writing.{entry_names, default_names}
use ps2hdd_rs.Sys.Bindings.{Bindings, Dirent}
use ps2hdd_rs.Sys.Platform.{Platform}

-- A call that gives this result, and a state of that kind.
abbrev pub Goes {ℓ} : {S : Type 0} {A : Type ℓ} → (S → A × S) → S → A → (S → Type 0) → Type ℓ
Goes {S = S} call s result After = (s' : S) × (call s ≡ (result, s')) × After s'

-- The stages of the machine: an image is made, a driver is started on it, the disk has a table of
-- partitions, a partition is mounted whose root has these entries.
pub record Bench {b : Bindings} (p : Platform b) : Type 1 where
  pub Made : p.State → Type 0
  pub Started : p.State → Type 0
  pub Table : List (Dirent b) → p.State → Type 0
  pub Root : List (Dirent b) → p.State → Type 0
  pub defaults : List (Dirent b)
  pub added : Dirent b
  pub dot : Dirent b
  pub dot_dot : Dirent b
  pub testdir : Dirent b
  pub default_shown : (message : Text) → entry_names message defaults ≡ ok default_names
  pub added_shown :
      (message : Text)
      → entry_names message (defaults ++ added ∷ []) ≡ ok (default_names ++ bytes "TESTPART" ∷ [])
  pub root_shown :
      (message : Text)
      → entry_names message (dot ∷ dot_dot ∷ testdir ∷ [])
        ≡ ok (bytes "." ∷ bytes ".." ∷ bytes "testdir" ∷ [])
  pub testdir_directory : (bit_and (b.mode testdir.stat) b.fio_s_ifmt == b.fio_s_ifdir) ≡ true
  pub created :
      (path : Text) (s : p.State)
      → (s₁ : p.State) × (p.file_create path s ≡ (none, s₁))
        × Goes (p.set_len path demo_file_size) s₁ none Made
  pub removed : (path : Text) (s : p.State) → (p.remove_file path s).0 ≡ none
  pub apa : (cells : Text) (s : p.State) → Made s → Goes (p.init_apa cells) s (pos 0) Started
  pub pfs : (s : p.State) → Started s → Goes p.init_pfs s (pos 0) Started
  pub disk_formatted :
      (s : p.State)
      → Started s
      → Goes (p.iomanx_format (bytes "hdd0:") none none 0) s (pos 0) (Table defaults)
  pub partition_made :
      (s : p.State)
      → Table defaults s
      → (handle : ℕ) × (s₁ : p.State) × (p.iomanx_open
            (bytes "hdd0:TESTPART,,,128M,PFS")
            (open_flags p)
            s
          ≡ (pos handle, s₁))
        × Goes (p.iomanx_close (pos handle)) s₁ (pos 0) (Table (defaults ++ added ∷ []))
  pub table_listed :
      (ds : List (Dirent b)) (s : p.State)
      → Table ds s
      → (s' : p.State) × Session p (bytes "hdd0:") ds s s' × Table ds s'
  pub partition_formatted :
      (ds : List (Dirent b)) (s : p.State)
      → Table ds s
      → Goes
          (p.iomanx_format
            (bytes "pfs0:")
            (some (bytes "hdd0:TESTPART"))
            (some (pos 8192 ∷ pos 0x2d66 ∷ pos 0x00000000 ∷ []))
            12)
          s
          (pos 0)
          (Table ds)
  pub mounted :
      (ds : List (Dirent b)) (s : p.State)
      → Table ds s
      → Goes
          (p.iomanx_mount (bytes "pfs0:") (bytes "hdd0:TESTPART") (pos 0))
          s
          (pos 0)
          (Root (dot ∷ dot_dot ∷ []))
  pub directory_made :
      (s : p.State)
      → Root (dot ∷ dot_dot ∷ []) s
      → Goes
          (p.iomanx_mkdir (bytes "pfs0:/testdir") 0o777)
          s
          (pos 0)
          (Root (dot ∷ dot_dot ∷ testdir ∷ []))
  pub root_listed :
      (ds : List (Dirent b)) (s : p.State)
      → Root ds s
      → (s' : p.State) × Session p (bytes "pfs0:/") ds s s' × Root ds s'
  pub umounted :
      (ds : List (Dirent b)) (s : p.State)
      → Root ds s
      → (p.iomanx_umount (bytes "pfs0:") (p.atad_close s)).0 ≡ pos 0
