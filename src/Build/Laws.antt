-- ===== src/Build/Laws.antt =====
-- The build script with and without `OUT_DIR`, and the names that the sources use of the bindings.
use ps2hdd_rs.Prelude.{
  ◌≡◌, refl, Text, bytes, List, [], ◌∷◌, ◌++◌, ◌&&◌, Bool, true, false, if◌then◌else◌, text_eq, ok,
  err, panic,
}
use ps2hdd_rs.Build.{
  Tools, Item, var, named_type, function, whitelist, ends_in_slash, join, builder, main, unwrapped,
  ◌>>=◌,
}
use ps2hdd_rs.Std.Utf8.{IsUtf8}
use ps2hdd_rs.Std.Utf8.Laws.{from_utf8-IsUtf8}

join-file : (path name : Text) → ends_in_slash path ≡ false → join path name ≡ path ++ (b'/' ∷ name)
unfolding join
join-file path name h = rw h

module _ (t : Tools) where
  -- With no `OUT_DIR` the script ends before it has done anything.
  main-unset :
      (s : t.State) {e : Text} → t.var (bytes "OUT_DIR") s ≡ err e → main t s ≡ (panic unwrapped, s)
  unfolding main ◌>>=◌
  main-unset s h = rw h

  -- The state before the generator runs.
  abbrev built : Text → t.State → t.State
  built out_dir s =
      t.print_line (bytes "cargo:rerun-if-changed=wrapper.h")
        (t.meson_build (bytes "vendor/pfsshell") (out_dir ++ bytes "/build") (
          t.print_line (bytes "cargo:rustc-link-search=" ++ (out_dir ++ bytes "/build"))
            (t.print_line (bytes "cargo:rustc-link-lib=ps2hdd") s))).1

  -- With one that is text, and tools that succeed, the library is built in its directory `build`, and
  -- the bindings are written where `include!` of ps2hdd-sys/src/lib.rs reads them.
  main-built :
      (out_dir : Text) (s s' s'' : t.State) (bindings : t.Bindings)
      → ((v : t.State) → t.var (bytes "OUT_DIR") v ≡ ok out_dir)
      → ends_in_slash out_dir ≡ false
      → IsUtf8 (out_dir ++ bytes "/build")
      → ((from to : Text) (v : t.State) → (t.meson_build from to v).0 ≡ ok tt)
      → t.generate (builder t) (built out_dir s) ≡ (ok bindings, s')
      → t.write_to_file bindings (out_dir ++ bytes "/bindings.rs") s' ≡ (ok tt, s'')
      → main t s ≡ (ok tt, s'')
  unfolding main bytes ◌>>=◌
  main-built out_dir s s' s'' bindings set plain text built generated written = rw (set s) (
      rw (join-file out_dir (bytes "build") plain) (
        rw (from_utf8-IsUtf8 (out_dir ++ bytes "/build") text) (
          rw built (
            rw generated
              (rw (set s') (rw (join-file out_dir (bytes "bindings.rs") plain) (rw written)))))))

item_eq : Item → Item → Bool
unfolding text_eq
item_eq (var m) (var n) = text_eq m n
item_eq (named_type m) (named_type n) = text_eq m n
item_eq (function m) (function n) = text_eq m n
item_eq _ _ = false

has : List Item → Item → Bool
unfolding item_eq
has [] item = false
has (other ∷ items) item = if item_eq item other then true else has items item

has_all : List Item → List Item → Bool
unfolding has
has_all items [] = true
has_all items (item ∷ needed) = has items item && has_all items needed

-- What the two crates name with `ps2hdd_sys::` and in the tests of ps2hdd-sys/src/lib.rs.
abbrev used : List Item
used =
    var (bytes "FIO_S_IFDIR")
    ∷ var (bytes "FIO_S_IFLNK")
    ∷ var (bytes "FIO_S_IFMT")
    ∷ var (bytes "FIO_S_IFREG")
    ∷ var (bytes "IOMANX_O_CREAT")
    ∷ var (bytes "IOMANX_O_RDWR")
    ∷ var (bytes "atad_device_path")
    ∷ named_type (bytes "iox_dirent_t")
    ∷ function (bytes "_init_apa")
    ∷ function (bytes "_init_pfs")
    ∷ function (bytes "atad_close")
    ∷ function (bytes "iomanx_close")
    ∷ function (bytes "iomanx_dopen")
    ∷ function (bytes "iomanx_format")
    ∷ function (bytes "iomanx_mkdir")
    ∷ function (bytes "iomanx_mount")
    ∷ function (bytes "iomanx_open")
    ∷ function (bytes "iomanx_rmdir")
    ∷ function (bytes "iomanx_umount")
    ∷ []

-- The bindings have every one of them, and leave out the function that is declared by hand.
used-whitelist :
    (has_all whitelist used ≡ true) × (has whitelist (function (bytes "iomanx_dread")) ≡ false)
unfolding has_all bytes
used-whitelist = (refl, refl)
