-- ===== src/Filesystem/Safe.antt =====
-- Whatever is asked of a server's file system, the files of the host outside it stay as they are.
use pywings.Prelude.{◌≡◌, true, List, [], ◌∷◌, Text, arith, ℕ}
use pywings.Result.{Result}
use pywings.Filesystem.Paths.{FilePath, path_eq}
use pywings.Filesystem.Prefixes.{is_under_refl}
use pywings.Filesystem.{Disk, Outcome, write, rename, delete, create_directory}
use pywings.Filesystem.Copying.{copy}

-- A call of one of these methods that change files.
pub data Request : Type 0 where
  writing : Text → List ℕ → Request
  renaming : Text → List (Text × Text) → Request
  deletion : Text → List Text → Request
  creation : Text → Text → Request
  copying : Text → Request

pub path_eq_refl : (p : FilePath) → path_eq p p ≡ true
unfolding path_eq
path_eq_refl p = ground (arith, is_under_refl p)

module _ (root : FilePath) (resolve : FilePath → FilePath) where
  unfoldable pub serve : Request → Disk → Outcome
  serve (writing name content) = write root resolve name content
  serve (renaming place items) = rename root resolve place items
  serve (deletion place names) = delete root resolve place names
  serve (copying location) = copy root resolve location
  serve (creation name place) = create_directory root resolve name place

  -- The requests one after the other, whether they succeed or not.
  unfoldable pub serve_all : List Request → Disk → Disk
  serve_all [] d = d
  serve_all (r ∷ rs) d = serve_all rs (serve r d).1
