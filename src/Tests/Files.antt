-- ===== src/Tests/Files.antt =====
-- Requests for the files of a server.
use pywings.Prelude.{refl, lit, text_eq, [], ◌∷◌, List}
use pywings.Filesystem.Paths.{FilePath, is_under}
use pywings.Filesystem.{Disk, directory, file, node_at}
use pywings.Filesystem.Paths.{path_eq, parts, named, unrooted}
use pywings.Filesystem.{write, write_to, write_over, path, on_path, and_then, make_dirs}
use pywings.Filesystem.Stored.{IsStored, write-IsStored}
use pywings.Result.{ok}
use pywings.Prelude.{◌≡◌, split, lstrip}
use pywings.Filesystem.Safe.{Request, writing, renaming, deletion, creation, copying}

abbrev root : FilePath
root = lit "srv" ∷ []

-- A host without links, whose paths hold no dots.
abbrev resolve : FilePath → FilePath
resolve p = p

abbrev disk : Disk
disk =
    ([], directory)
    ∷ (root, directory)
    ∷ (lit "etc" ∷ [], directory)
    ∷ (lit "etc" ∷ lit "passwd" ∷ [], file [])
    ∷ []

abbrev requests : List Request
requests =
    writing (lit "/a/b.txt") (104 ∷ 105 ∷ [])
    ∷ creation (lit "c") (lit "/")
    ∷ renaming (lit "/") ((lit "a", lit "c/a") ∷ [])
    ∷ copying (lit "a")
    ∷ deletion (lit "/") (lit "c" ∷ lit "../etc" ∷ [])
    ∷ []

written : (write root resolve (lit "b.txt") (104 ∷ []) disk).0 ≡ ok tt
unfolding write write_to write_over path on_path and_then make_dirs node_at path_eq is_under parts
    named unrooted lstrip split text_eq
written = refl

write-IsStored_example :
    (t : FilePath) × (path root resolve (lit "b.txt") ≡ ok t)
    × IsStored root resolve (104 ∷ []) t disk (write root resolve (lit "b.txt") (104 ∷ []) disk).1
write-IsStored_example = write-IsStored root resolve (lit "b.txt") (104 ∷ []) disk written
