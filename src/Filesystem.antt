-- ===== src/Filesystem.antt =====
-- wings/filesystem.py: `ServerFilesystem`, the operations on the files of one server. A path is a list
-- of names from the root of the host's files; the bits of the permissions are left out.
pub mod Paths
pub mod Prefixes
pub mod Confined
pub mod Replaced
pub mod Safe
pub mod Stored
pub mod Copying
pub mod Crowded
pub mod Copied
pub mod Moved
pub mod Mime
pub mod Editable
pub mod Backups
pub mod Selected
use pywings.Prelude.{
  ℕ, ◌-◌, Bool, true, false, not, ◌&&◌, ◌||◌, Option, none, some, List, [], ◌∷◌, ◌++◌, Text, lit,
  is_empty, length, take, drop, any, if◌then◌else◌,
}
use pywings.Result.{Result, ok, err, Error, filesystem_error, os_error, ◌>>=◌}
use Paths.{FilePath, is_under, path_eq, parts, below, unrooted}

pub data Node : Type 0 where
  directory : Node
  file : List ℕ → Node

abbrev pub Disk : Type 0
Disk = List (FilePath × Node)

unfoldable pub node_at : FilePath → Disk → Option Node
unfolding path_eq
node_at p [] = none
node_at p ((q, n) ∷ d) = let rest = node_at p d in if path_eq p q then some n else rest

-- shutil.rmtree, and unlink of a file.
unfoldable pub remove_tree : FilePath → Disk → Disk
remove_tree t [] = []
remove_tree t ((q, n) ∷ d) =
    let rest = remove_tree t d in if is_under t q then rest else (q, n) ∷ rest

-- A node in place of a file or of nothing.
abbrev pub put : FilePath → Node → Disk → Disk
put p n d = (p, n) ∷ d

-- The move of a file or of a directory with all it holds.
unfoldable pub relocate : FilePath → FilePath → Disk → Disk
relocate s t [] = []
relocate s t ((q, n) ∷ d) =
    let rest = relocate s t d in
    if is_under s q then (t ++ drop (length s) q, n) ∷ rest else (q, n) ∷ rest

-- Something stands in the directory.
unfoldable pub is_occupied : FilePath → Disk → Bool
is_occupied t d = any (λ (q, n). is_under t q && not (is_under q t)) d

abbrev pub Outcome : Type 0
Outcome = Result (Unit {0}) × Disk

abbrev pub refuse : Error → Disk → Outcome
refuse e d = (err e, d)

-- Path.mkdir(parents=True, exist_ok=True): the directories of `rest` below `done`.
unfoldable pub make_dirs : FilePath → FilePath → Disk → Outcome
make_dirs done [] d = (ok tt, d)
make_dirs done (x ∷ rest) d =
    let here = done ++ (x ∷ []) in
    elim (node_at here d) [
      | none ↦ make_dirs here rest (put here directory d)
      | some directory ↦ make_dirs here rest d
      | some (file c) ↦ refuse os_error d
    ]

-- path.parent
abbrev pub parent : FilePath → FilePath
parent t = take (length t - 1) t

-- Path.replace, as rename(2) has it: nothing moves into itself, a directory takes the place of an
-- empty directory or of nothing, a file that of a file or of nothing.
unfoldable pub replace_node : FilePath → FilePath → Node → Option Node → Disk → Outcome
replace_node s t (file c) (some directory) d = refuse os_error d
replace_node s t (file c) n d = (ok tt, relocate s t (remove_tree t d))
replace_node s t directory (some (file c)) d = refuse os_error d
replace_node s t directory none d = (ok tt, relocate s t d)
replace_node s t directory (some directory) d =
    if is_occupied t d then refuse os_error d else (ok tt, relocate s t (remove_tree t d))

unfoldable pub replace : FilePath → FilePath → Disk → Outcome
replace s t d =
    if path_eq s t
    then (ok tt, d)
    else if is_under s t
    then refuse os_error d
    else elim (node_at s d) [
      | none ↦ refuse os_error d
      | some n ↦ replace_node s t n (node_at t d) d
    ]

-- One operation after the other; the first exception ends them, with what is done by then.
unfoldable pub and_then : Outcome → (Disk → Outcome) → Outcome
and_then (err e, d) f = (err e, d)
and_then (ok u, d) f = f d

-- The same, where what follows gives a value.
unfoldable pub and_give : {A : Type 0} → Outcome → (Disk → Result A × Disk) → Result A × Disk
and_give (err e, d) f = (err e, d)
and_give (ok u, d) f = f d

unfoldable pub for_each : {A : Type 0} → (A → Disk → Outcome) → List A → Disk → Outcome
for_each f [] d = (ok tt, d)
for_each f (x ∷ xs) d = and_then (f x d) (λ d'. for_each f xs d')

-- `root` is the server's directory, and `resolve` follows the symbolic links and the dots of a path.
module _ (root : FilePath) (resolve : FilePath → FilePath) where
  -- `path`
  unfoldable pub path : Text → Result FilePath
  path value =
      let target = resolve (root ++ parts (unrooted (if is_empty value then lit "/" else value))) in
      if is_under root target
      then ok target
      else err (filesystem_error (lit "The requested path resolves outside the server root."))

  -- self.path(value), and then what is done with it.
  unfoldable pub on_path : Text → (FilePath → Disk → Outcome) → Disk → Outcome
  on_path value f d = elim (path value) [ err e ↦ refuse e d | ok target ↦ f target d ]

  -- str(base.relative_to(self.root) / name)
  abbrev pub inside : FilePath → Text → Text
  inside base name = below (drop (length root) base) name

  unfoldable pub write_over : List ℕ → FilePath → Option Node → Disk → Outcome
  write_over content t (some directory) d =
      refuse
        (filesystem_error
          (lit "Cannot write file, name conflicts with an existing directory by the same name."))
        d
  write_over content t n d =
      and_then (make_dirs [] (parent t) d) (λ d'. (ok tt, put t (file content) d'))

  unfoldable pub write_to : List ℕ → FilePath → Disk → Outcome
  write_to content t d = write_over content t (node_at t d) d

  unfoldable pub write : Text → List ℕ → Disk → Outcome
  write filename content = on_path filename (write_to content)

  unfoldable pub move : FilePath → FilePath → Disk → Outcome
  move source destination d = elim (node_at source d) [
    | none ↦ refuse (filesystem_error (lit "The requested resource was not found on the system.")) d
    | some n ↦ and_then (make_dirs [] (parent destination) d) (replace source destination)
  ]

  -- One round of the loop of `rename`, over what an item has under `from` and `to`.
  unfoldable pub rename_item : FilePath → Text × Text → Disk → Outcome
  rename_item base (source, destination) =
      on_path (inside base source) λ s. on_path (inside base destination) λ t. move s t

  unfoldable pub rename : Text → List (Text × Text) → Disk → Outcome
  rename place [] d = refuse (filesystem_error (lit "No files to move or rename were provided.")) d
  rename place (item ∷ items) d =
      on_path place (λ base. for_each (rename_item base) (item ∷ items)) d

  unfoldable pub delete_at : FilePath → Disk → Outcome
  delete_at t d =
      if path_eq t root
      then refuse (filesystem_error (lit "The server root directory cannot be deleted.")) d
      else elim (node_at t d) [ none ↦ (ok tt, d) | some n ↦ (ok tt, remove_tree t d) ]

  unfoldable pub delete : Text → List Text → Disk → Outcome
  delete place [] d = refuse (filesystem_error (lit "No files were specified for deletion.")) d
  delete place (name ∷ names) d =
      on_path place (λ base. for_each (λ f. on_path (inside base f) delete_at) (name ∷ names)) d

  unfoldable pub make_below : Text → FilePath → Disk → Outcome
  make_below name base = on_path (inside base name) (make_dirs [])

  unfoldable pub create_directory : Text → Text → Disk → Outcome
  create_directory name place d =
      if is_empty name
      then refuse (filesystem_error (lit "A directory name is required.")) d
      else on_path place (make_below name) d
