-- ===== src/Hdd/Partitions/Listing.antt =====
-- `list_partitions` against a driver that serves entries.
use ps2hdd_rs.Prelude.{
  ℕ, ◌<◌, bytes, List, [], ◌∷◌, ◌++◌, append_assoc, append-nil, ◌≡◌, refl, sym, ap, ◌∙◌, Outcome,
  ok, ◌>>?◌, >>?_assoc, >>?-cong, length,
}
use ps2hdd_rs.Fs.{PartEntry, part_entry}
use ps2hdd_rs.ReadDir.Laws.{Session, gather, read_directory-gather, >>?-ok}
use ps2hdd_rs.Std.CString.{cstring_new}
use ps2hdd_rs.Hdd.Partitions.{accept_partition, partition_messages, list_partitions}
use ps2hdd_rs.Sys.Bindings.{Bindings, Dirent}
use ps2hdd_rs.Sys.Platform.{Platform}
use ps2hdd_rs.Sys.World.{World, ◌>>=◌}

module _ {b : Bindings} where
  -- Every entry converted, in order, or what the first one that cannot be gives.
  abbrev pub traverse_entries : List (Dirent b) → Outcome (List PartEntry)
  traverse_entries [] = ok []
  traverse_entries (d ∷ ds) = part_entry d >>? λ e. traverse_entries ds >>? λ es. ok (e ∷ es)

gather-traverse :
    {b : Bindings} (p : Platform b) (out : List PartEntry) (ds : List (Dirent b))
    → gather p accept_partition out ds ≡ (traverse_entries ds >>? λ es. ok (out ++ es))
unfolding accept_partition
gather-traverse p out [] = ap ok (sym (append-nil out))
gather-traverse p out (d ∷ ds) =
    >>?_assoc (part_entry d) _ _
    ∙ >>?-cong (part_entry d) _ _ (λ e.
      gather-traverse p (out ++ e ∷ []) ds
      ∙ >>?-cong (traverse_entries ds) _ _ (λ es. ap ok (append_assoc out (e ∷ []) es))
      ∙ sym (>>?_assoc (traverse_entries ds) _ _))
    ∙ sym (>>?_assoc (part_entry d) _ _)

pub hdd_root_cstring : cstring_new (bytes "hdd0:") ≡ ok (bytes "hdd0:")
unfolding cstring_new bytes
hdd_root_cstring = refl

module _ {b : Bindings} (p : Platform b) where
  gather-traverse_nil :
      (ds : List (Dirent b)) → gather p accept_partition [] ds ≡ traverse_entries ds
  gather-traverse_nil ds = gather-traverse p [] ds ∙ >>?-ok (traverse_entries ds)

  -- If the driver opens the root, serves entries and closes, and there is more fuel than entries,
  -- `list_partitions` returns the converted entries in their order, or what the first one that cannot
  -- be converted gives; where it returns the list, only the driver's state has changed, to the one
  -- after the close.
  pub list_partitions-traverse :
      (fuel : ℕ) (ds : List (Dirent b)) (w : World p) (s₃ : p.State)
      → Session p (bytes "hdd0:") ds w.outside s₃
      → length ds < fuel
      → ((list_partitions p fuel w).0 ≡ traverse_entries ds)
        × ((es : List PartEntry)
            → traverse_entries ds ≡ ok es
            → (list_partitions p fuel w).1 ≡ record w { outside = s₃ })
  unfolding list_partitions ◌>>=◌
  list_partitions-traverse fuel ds w s₃ session h =
      rw (hdd_root_cstring, ← gather-traverse_nil ds)
        (read_directory-gather p partition_messages fuel accept_partition (bytes "hdd0:") ds w s₃
          session h)
