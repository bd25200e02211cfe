-- ===== src/Driver/Laws.antt =====
-- `list_dir` against a driver that serves entries.
use ps2hdd_rs.Prelude.{
  refl, ℕ, ◌<◌, Text, List, [], ◌∷◌, ◌++◌, append_assoc, append-nil, ◌≡◌, sym, ap, ◌∙◌, Outcome,
  Bool, true, false, not, bytes, text_eq, ◌&&◌, ◌==◌, arith, if◌then◌else◌, ok, map_err, ◌>>?◌,
  >>?_assoc, >>?-cong, length,
}
use ps2hdd_rs.Driver.{Driver, is_listed, dir_messages, on_device, accept_entry, list_dir}
use ps2hdd_rs.Fs.{DirEntry, new}
use ps2hdd_rs.ReadDir.Laws.{Session, gather, read_directory-gather, >>?-ok}
use ps2hdd_rs.Std.CString.{read_str, NoNul}
use ps2hdd_rs.Std.CString.Laws.{cstring_new-NoNul}
use ps2hdd_rs.Sys.Bindings.{Bindings, Dirent}
use ps2hdd_rs.Sys.Platform.{Platform}
use ps2hdd_rs.Sys.World.{World, ◌>>=◌}

-- One dot, or two, and nothing else.
abbrev pub is_dots : Text → Bool
is_dots [] = false
is_dots (c ∷ []) = c == b'.'
is_dots (c ∷ d ∷ []) = c == b'.' && d == b'.'
is_dots (c ∷ d ∷ e ∷ name) = false

is_listed-is_dots : (name : Text) → is_listed name ≡ not (is_dots name)
unfolding text_eq bytes
is_listed-is_dots [] = refl
is_listed-is_dots (c ∷ []) = ground arith
is_listed-is_dots (c ∷ d ∷ []) = ground arith
is_listed-is_dots (c ∷ d ∷ e ∷ name) = ground arith

module _ {b : Bindings} (root : Text) where
  -- The name of an entry, or the message for a name that is no text.
  abbrev pub name_of : Dirent b → Outcome Text
  name_of d =
      map_err (λ e. bytes "could not convert the directory name to a String: " ++ e)
        (read_str d.name)

  -- The entries but for `.` and `..`, in order, if every name is text.
  abbrev pub listed_entries : List (Dirent b) → Outcome (List (DirEntry b))
  listed_entries [] = ok []
  listed_entries (d ∷ ds) = name_of d >>? λ name. listed_entries ds >>? λ es.
      ok (if is_dots name then es else record { entry = d; root = root } ∷ es)

  -- One entry, shown or not.
  push-listed :
      (d : Dirent b) (dots : Bool) (out : List (DirEntry b)) (rest : Outcome (List (DirEntry b)))
      (next : List (DirEntry b) → Outcome (List (DirEntry b)))
      → ((out : List (DirEntry b)) → next out ≡ (rest >>? λ es. ok (out ++ es)))
      → next (if not dots then out ++ new d root ∷ [] else out)
        ≡ ((rest >>? λ es. ok (if dots then es else new d root ∷ es)) >>? λ es. ok (out ++ es))
  push-listed d false out rest next ih =
      ih (out ++ new d root ∷ [])
      ∙ >>?-cong rest _ _ (λ es. ap ok (append_assoc out (new d root ∷ []) es))
      ∙ sym (>>?_assoc rest _ _)
  push-listed d true out rest next ih = ih out ∙ sym (>>?_assoc rest _ _)

  gather-listed :
      (p : Platform b) (out : List (DirEntry b)) (ds : List (Dirent b))
      → gather p (accept_entry root) out ds ≡ (listed_entries ds >>? λ es. ok (out ++ es))
  unfolding accept_entry
  gather-listed p out [] = ap ok (sym (append-nil out))
  gather-listed p out (d ∷ ds) =
      let next = λ (out' : List (DirEntry b)). gather p (accept_entry root) out' ds in
      >>?_assoc (name_of d) _ _
      ∙ >>?-cong (name_of d) _ _ (λ name.
        ap (λ shown. next (if shown then out ++ new d root ∷ [] else out)) (is_listed-is_dots name)
        ∙ push-listed d (is_dots name) out (listed_entries ds) next
            (λ out'. gather-listed p out' ds))
      ∙ sym (>>?_assoc (name_of d) _ _)

  gather-listed_nil :
      (p : Platform b) (ds : List (Dirent b))
      → gather p (accept_entry root) [] ds ≡ listed_entries ds
  gather-listed_nil p ds = gather-listed p [] ds ∙ >>?-ok (listed_entries ds)

module _ {b : Bindings} (p : Platform b) {D : Type 0} ⦃d : Driver D⦄ where
  -- If the path holds no NUL, the driver opens it under the device's root, serves entries and
  -- closes, and there is more fuel than entries, `list_dir` returns the entries other than `.` and
  -- `..` in their order, each with the path as its root, or what reading the first name that is not
  -- text gives; where it returns the list, only the driver's state has changed, to the one after the
  -- close.
  pub list_dir-listed_entries :
      (fuel : ℕ) (self : D) (path : Text) (ds : List (Dirent b)) (w : World p) (s₃ : p.State)
      → NoNul (on_device (d.get_device_root self) path)
      → Session p (on_device (d.get_device_root self) path) ds w.outside s₃
      → length ds < fuel
      → ((list_dir p fuel self path w).0 ≡ listed_entries path ds)
        × ((es : List (DirEntry b))
            → listed_entries path ds ≡ ok es
            → (list_dir p fuel self path w).1 ≡ record w { outside = s₃ })
  unfolding list_dir ◌>>=◌
  list_dir-listed_entries fuel self path ds w s₃ fine session h =
      rw
        (
          cstring_new-NoNul (on_device (d.get_device_root self) path) fine,
          ← gather-listed_nil path p ds,
        )
        (read_directory-gather p dir_messages fuel (accept_entry path)
          (on_device (d.get_device_root self) path) ds w s₃ session h)
