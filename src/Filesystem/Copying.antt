-- ===== src/Filesystem/Copying.antt =====
-- wings/filesystem.py: `copy`, with its search for a free name.
use pywings.Prelude.{
  ℕ, zero, suc, ◌||◌, Option, none, some, List, [], ◌∷◌, ◌++◌, length, leb, Text, lit, is_empty,
  split_last, if◌then◌else◌,
}
use pywings.Numbers.{plus, whole_text}
use pywings.Result.{ok, filesystem_error, os_error}
use pywings.Filesystem.{Disk, file, node_at, put, Outcome, refuse, parent, on_path}
use pywings.Filesystem.Paths.{FilePath}

-- path.name
unfoldable pub name_of : FilePath → Text
name_of [] = []
name_of (w ∷ []) = w
name_of (w ∷ v ∷ vs) = name_of (v ∷ vs)

-- path.stem and path.suffix
unfoldable pub stem_suffix : Text → Text × Text
unfolding split_last
stem_suffix name = elim (split_last b'.' name) [
  | none ↦ (name, [])
  | some (stem, ending) ↦
      if is_empty stem || is_empty ending then (name, []) else (stem, b'.' ∷ ending)
]

-- What stands behind the word: nothing for the first copy, and else its number.
unfoldable pub numbering : ℕ → Text
unfolding whole_text
numbering n = if leb n 1 then [] else b' ' ∷ whole_text (plus n)

unfoldable pub copy_name : Text × Text → ℕ → Text
copy_name (stem, suffix) n = stem ++ (lit " copy" ++ (numbering n ++ suffix))

-- source.with_name(…), for the n-th candidate
unfoldable pub candidate : FilePath → ℕ → FilePath
candidate source n = parent source ++ (copy_name (stem_suffix (name_of source)) n ∷ [])

-- The loop, for a number of rounds.
unfoldable pub free_path : ℕ → ℕ → FilePath → Disk → Option FilePath
free_path zero n source d = none
free_path (suc fuel) n source d = elim (node_at (candidate source n) d) [
  | none ↦ some (candidate source n)
  | some m ↦ free_path fuel (suc n) source d
]

-- shutil.copy2 to the path that the loop found; there is always one.
unfoldable pub copy_to : List ℕ → Option FilePath → Disk → Outcome
copy_to content none d = refuse os_error d
copy_to content (some t) d = (ok tt, put t (file content) d)

unfoldable pub copy_at : FilePath → Disk → Outcome
copy_at source d = elim (node_at source d) [
  | some (file content) ↦ copy_to content (free_path (suc (length d)) 1 source d) d
  | n ↦ refuse (filesystem_error (lit "The requested resource was not found on the system.")) d
]

unfoldable pub copy : FilePath → (FilePath → FilePath) → Text → Disk → Outcome
copy root resolve location = on_path root resolve location copy_at
