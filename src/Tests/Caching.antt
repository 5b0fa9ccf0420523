-- ===== src/Tests/Caching.antt =====
-- Runs of the cache of blobs, and of the copy of a file.
use pywings.Prelude.{
  ℕ, ◌≡◌, ◌≤◌, refl, none, List, [], ◌∷◌, Text, lit, text_eq, has_char, lstrip, split, split_last,
}
use pywings.Prelude.Dict
use pywings.Prelude.Dict.{Dict}
use pywings.Result.{ok}
use pywings.Filesystem.{Disk, directory, file, node_at, on_path, put, path}
use pywings.Filesystem.Paths.{FilePath, is_under, path_eq, parts, named, unrooted}
use pywings.Filesystem.Copying.{
  candidate, copy, copy_at, copy_to, free_path, copy_name, stem_suffix, name_of, numbering,
}
use pywings.Numbers.{decimal, whole_text}
use pywings.Filesystem.Copied.{copy-adds}
use pywings.Oci.Cache.{clean_digest, has_blob}
use pywings.Oci.Plain.{IsPlain}
use pywings.Oci.Refined.{store_all, insert_all, Refines, is_filled, store_all-Refines}

abbrev disk : Disk
disk =
    ([], directory)
    ∷ (lit "blobs" ∷ [], directory)
    ∷ (lit "blobs" ∷ lit "sha256" ∷ [], directory)
    ∷ []

disk-Refines : Refines [] disk []
unfolding node_at path_eq is_under text_eq Dict.lookup
disk-Refines = record {
  store = record { place = refl; blob_free = λ w plain e. cc; temporary_free = λ w plain e. cc };
  holds = λ w plain. refl;
}

abbrev ops : List (Text × List ℕ)
ops = (lit "sha256:0a", 1 ∷ 2 ∷ []) ∷ (lit "sha256:0b", []) ∷ (lit "0a", 3 ∷ []) ∷ []

zero_a-IsPlain : IsPlain (lit "0a")
unfolding has_char
zero_a-IsPlain = record { filled = refl; slashless = refl; dotless = refl }

zero_b-IsPlain : IsPlain (lit "0b")
unfolding has_char
zero_b-IsPlain = record { filled = refl; slashless = refl; dotless = refl }

store_all-Refines_example :
    Refines [] (store_all [] ops disk) (insert_all ops [])
    × ((digest : Text)
        → IsPlain (clean_digest digest)
        → has_blob [] digest (store_all [] ops disk)
          ≡ is_filled (Dict.lookup (clean_digest digest) (insert_all ops [])))
unfolding clean_digest
store_all-Refines_example =
    store_all-Refines [] ops disk [] (zero_a-IsPlain, (zero_b-IsPlain, (zero_a-IsPlain, tt)))
      disk-Refines

abbrev root : FilePath
root = lit "one" ∷ []

abbrev files : Disk
files =
    (root, directory)
    ∷ (lit "one" ∷ lit "a.txt" ∷ [], file (7 ∷ []))
    ∷ (lit "one" ∷ lit "a copy.txt" ∷ [], file [])
    ∷ []

copy_run :
    copy root (λ p. p) (lit "/a.txt") files
    ≡ (ok tt, put (lit "one" ∷ lit "a copy 2.txt" ∷ []) (file (7 ∷ [])) files)
unfolding copy on_path path is_under text_eq copy_at node_at parts named split unrooted lstrip
    copy_to free_path candidate copy_name stem_suffix name_of numbering path_eq decimal whole_text
    split_last
copy_run = refl

copy-adds_example :
    (n : ℕ) × (1 ≤ n)
    × (node_at (candidate (lit "one" ∷ lit "a.txt" ∷ []) n) files ≡ none)
    × (copy root (λ p. p) (lit "/a.txt") files
        ≡ (ok tt, put (candidate (lit "one" ∷ lit "a.txt" ∷ []) n) (file (7 ∷ [])) files))
unfolding path node_at path_eq is_under text_eq parts named unrooted split lstrip
copy-adds_example =
    copy-adds root (λ p. p) (lit "/a.txt") (lit "one" ∷ lit "a.txt" ∷ []) (7 ∷ []) files refl refl
