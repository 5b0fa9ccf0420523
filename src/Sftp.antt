-- ===== src/Sftp.antt =====
-- wings/sftp.py: what a client may do with the files of a server over SFTP. `PteroSFTPInterface` on a
-- disk; the protocol and the keys are paramiko's.
pub mod Permissions
pub mod Handles
pub mod Login
pub mod Sessions
pub mod Confined
pub mod Readers
pub mod Within
pub mod Allowed
pub mod Modes
use pywings.Prelude.{
  ℕ, Bool, true, false, not, ◌&&◌, ◌||◌, Option, none, some, List, [], ◌∷◌, ◌++◌, length, take, any,
  Text, lit, is_empty, text_eq, if◌then◌else◌,
}
use pywings.Result.{Result, ok, err}
use pywings.Filesystem.{
  Node, directory, file, Disk, node_at, remove_tree, put, is_occupied, Outcome, make_dirs, parent,
  replace,
}
use pywings.Filesystem.Paths.{FilePath, is_under, path_eq, parts, unrooted}
use Permissions.{has_perm}

pub data Code : Type 0 where
  succeeded no_such_file denied failed : Code

-- A code, what a directory holds, what stands at a path, or a handle on an open file.
pub data Answer : Type 0 where
  code : Code → Answer
  names : List Text → Answer
  attributes : Node → Answer
  handle : FilePath → Answer

-- The bits of `flags` that `open` reads.
pub record Flags : Type 0 where
  pub write_only : Bool
  pub read_write : Bool
  pub create : Bool
  pub truncate : Bool

-- "rb", "rb+" and "wb+".
pub data Mode : Type 0 where
  reading updating replacing : Mode

unfoldable pub mode_of : Flags → Mode
mode_of f =
    if f.read_write || f.write_only
    then (if f.create && f.truncate then replacing else updating)
    else reading

unfoldable pub is_writing : Flags → Bool
is_writing f = f.write_only || f.read_write || f.create || f.truncate

abbrev pub Reply : Type 0
Reply = Answer × Disk

abbrev pub reply : Code → Disk → Reply
reply c d = (code c, d)

-- A directory above the path is a file.
unfoldable pub is_blocked : FilePath → FilePath → Disk → Bool
is_blocked done [] d = false
is_blocked done (x ∷ []) d = false
is_blocked done (x ∷ y ∷ rest) d =
    let here = done ++ (x ∷ []) in
    elim (node_at here d) [ some (file c) ↦ true | n ↦ is_blocked here (y ∷ rest) d ]

-- FileNotFoundError or NotADirectoryError, where nothing stands at a path.
unfoldable pub missing : FilePath → Disk → Code
missing t d = if is_blocked [] t d then failed else no_such_file

-- The name of what stands directly below the directory.
unfoldable pub child_of : FilePath → FilePath → Option Text
child_of [] (w ∷ []) = some w
child_of [] q = none
child_of (a ∷ t) [] = none
child_of (a ∷ t) (b ∷ q) = let rest = child_of t q in if text_eq a b then rest else none

unfoldable pub add_name : Option Text → List Text → List Text
add_name none ws = ws
add_name (some w) ws = if any (text_eq w) ws then ws else w ∷ ws

-- target.iterdir()
unfoldable pub children : FilePath → Disk → List Text
children t [] = []
children t ((q, n) ∷ d) = add_name (child_of t q) (children t d)

-- The answer of a change of files that may raise.
abbrev pub outcome_reply : Outcome → Reply
outcome_reply (err e, d) = reply failed d
outcome_reply (ok u, d) = reply succeeded d

unfoldable pub open_node : Mode → FilePath → Option Node → Disk → Reply
open_node mode t (some directory) d = reply failed d
open_node reading t none d = reply no_such_file d
open_node mode t none d = (handle t, put t (file []) d)
open_node replacing t (some (file c)) d = (handle t, put t (file []) d)
open_node mode t (some (file c)) d = (handle t, d)

abbrev pub open_below : Mode → FilePath → Outcome → Reply
open_below mode t (err e, d) = reply failed d
open_below mode t (ok u, d) = open_node mode t (node_at t d) d

unfoldable pub unlink : FilePath → Disk → Reply
unlink t d = elim (node_at t d) [
  | none ↦ reply (missing t d) d
  | some directory ↦ reply failed d
  | some (file c) ↦ reply succeeded (remove_tree t d)
]

unfoldable pub remove_directory : FilePath → Disk → Reply
remove_directory t d = elim (node_at t d) [
  | none ↦ reply (missing t d) d
  | some (file c) ↦ reply failed d
  | some directory ↦ if is_occupied t d then reply failed d else reply succeeded (remove_tree t d)
]

unfoldable pub rename_node : FilePath → FilePath → Disk → Reply
rename_node s t d = elim (node_at s d) [
  | none ↦ reply (missing s d) d
  | some n ↦ outcome_reply (replace s t d)
]

abbrev pub rename_below : FilePath → FilePath → Outcome → Reply
rename_below s t (err e, d) = reply failed d
rename_below s t (ok u, d) = rename_node s t d

pub data Request : Type 0 where
  list_folder stat lstat remove mkdir rmdir chattr : Text → Request
  open_file : Text → Flags → Request
  rename : Text → Text → Request

-- `root` is the server's directory, `resolve` is Path.resolve, and `permissions` are the user's.
module _ (root : FilePath) (resolve : FilePath → FilePath) (permissions : List Text) where
  -- `_resolve`; none is the PermissionError.
  unfoldable pub resolved : Text → Option FilePath
  resolved path =
      let target = resolve (root ++ parts (unrooted path)) in
      if is_under root target then some target else none

  -- What follows `_resolve`, with the answer to its exception.
  unfoldable pub on_target : Code → Text → (FilePath → Disk → Reply) → Disk → Reply
  on_target refused path f d = elim (resolved path) [ none ↦ reply refused d | some t ↦ f t d ]

  -- The directory of the server is not to be changed itself.
  unfoldable pub beside_root : FilePath → (Disk → Reply) → Disk → Reply
  beside_root t f d = if path_eq t root then reply denied d else f d

  abbrev pub may : Text → Bool
  may perm = has_perm permissions perm

  unfoldable pub list_at : FilePath → Disk → Reply
  list_at t d = elim (node_at t d) [
    | some directory ↦ (names (children t d), d)
    | n ↦ reply no_such_file d
  ]

  unfoldable pub stat_at : FilePath → Disk → Reply
  stat_at t d = elim (node_at t d) [ some n ↦ (attributes n, d) | none ↦ reply (missing t d) d ]

  unfoldable pub may_open : Flags → Bool
  may_open f =
      if is_writing f
      then may (lit "file.create") || may (lit "file.update")
      else may (lit "file.read-content") || may (lit "file.read")

  -- The file that is opened; Modes has the bits of permissions that are set on the way.
  unfoldable pub open_at : Flags → FilePath → Disk → Reply
  open_at f t d =
      if may_open f then open_below (mode_of f) t (make_dirs [] (parent t) d) else reply denied d

  -- One function per method of the interface; `lstat` has the resolved path, which is no link.
  unfoldable pub perform : Request → Disk → Reply
  perform (list_folder path) d =
      if may (lit "file.read") then on_target denied path list_at d else reply denied d
  perform (stat path) d = on_target denied path stat_at d
  perform (lstat path) d = on_target denied path stat_at d
  perform (open_file path f) d = on_target denied path (open_at f) d
  perform (remove path) d =
      if may (lit "file.delete")
      then on_target failed path (λ t. beside_root t (unlink t)) d
      else reply denied d
  perform (rename old new) d =
      if may (lit "file.create") || may (lit "file.update")
      then on_target failed old
          (λ s. on_target failed new (λ t.
            beside_root s (beside_root t (λ d'. rename_below s t (make_dirs [] (parent t) d')))))
          d
      else reply denied d
  perform (mkdir path) d =
      if may (lit "file.create")
      then on_target failed path (λ t d'. outcome_reply (make_dirs [] t d')) d
      else reply denied d
  perform (rmdir path) d =
      if may (lit "file.delete")
      then on_target failed path (λ t. beside_root t (remove_directory t)) d
      else reply denied d
  perform (chattr path) d = reply succeeded d
