-- ===== src/Sftp/Confined.antt =====
-- No request of an SFTP client changes the files of the host outside the server's directory.
use pywings.Prelude.{
  ◌≡◌, ◌≢◌, refl, ap, true, false, Bool, Option, none, some, List, [], Text, arith, Bool-cases,
  Option-cases, inl, inr, if◌then◌else◌,
}
use pywings.Result.{ok, err}
use pywings.Filesystem.Paths.{FilePath, is_under, path_eq}
use pywings.Filesystem.{
  Disk, Node, directory, file, node_at, Outcome, make_dirs, parent, replace, is_occupied,
}
use pywings.Filesystem.Confined.{
  IsRooted, IsKept, IsKept-IsRooted, IsKept-refl, IsKept-trans, put-IsKept, remove_tree-IsKept,
  parent-IsReached, whole-IsReached, make_dirs-IsKept, file-other,
}
use pywings.Filesystem.Replaced.{replace-IsKept}
use pywings.Filesystem.Safe.{path_eq_refl}
use pywings.Sftp.{
  Reply, reply, Code, denied, failed, Mode, reading, updating, replacing, Flags, mode_of,
  outcome_reply, open_node, open_below, unlink, remove_directory, rename_node, rename_below,
  Request, list_folder, stat, lstat, remove, mkdir, rmdir, chattr, open_file, rename, resolved,
  on_target, beside_root, list_at, stat_at, may_open, open_at, perform,
}

module _ (root : FilePath) where
  -- A method that keeps the outside, on every rooted disk.
  abbrev pub KeepsReply : (Disk → Reply) → Type 0
  KeepsReply f = (d : Disk) → IsRooted root d → IsKept root d (f d).1

  outcome_reply-IsKept :
      (d : Disk) (o : Outcome) → IsKept root d o.1 → IsKept root d (outcome_reply o).1
  outcome_reply-IsKept d (err e, d') k = k
  outcome_reply-IsKept d (ok u, d') k = k

  module _ (t : FilePath) (inner : is_under root t ≡ true) where
    open_node-IsKept :
        (mode : Mode) (n : Option Node) (d : Disk)
        → IsRooted root d
        → node_at t d ≡ n
        → IsKept root d (open_node mode t n d).1
    unfolding open_node
    open_node-IsKept reading none d r e = IsKept-refl root d r
    open_node-IsKept updating none d r e =
        put-IsKept root t (file []) d r inner (file-other root t d r (λ f. cc))
    open_node-IsKept replacing none d r e =
        put-IsKept root t (file []) d r inner (file-other root t d r (λ f. cc))
    open_node-IsKept replacing (some (file c)) d r e =
        put-IsKept root t (file []) d r inner (file-other root t d r (λ f. cc))
    open_node-IsKept reading (some (file c)) d r e = IsKept-refl root d r
    open_node-IsKept updating (some (file c)) d r e = IsKept-refl root d r
    open_node-IsKept reading (some directory) d r e = IsKept-refl root d r
    open_node-IsKept updating (some directory) d r e = IsKept-refl root d r
    open_node-IsKept replacing (some directory) d r e = IsKept-refl root d r

    open_below-IsKept :
        (mode : Mode) (d : Disk) (o : Outcome)
        → IsRooted root d
        → IsKept root d o.1
        → IsKept root d (open_below mode t o).1
    open_below-IsKept mode d (err e, d') r k = k
    open_below-IsKept mode d (ok u, d') r k =
        IsKept-trans root d d' (open_node mode t (node_at t d') d').1 k
          (open_node-IsKept mode (node_at t d') d' (IsKept-IsRooted root d d' r k) refl)

    unlink-IsKept : t ≢ root → KeepsReply (unlink t)
    unfolding unlink
    unlink-IsKept other d r = elim (Option-cases (node_at t d)) [
      | inl e ↦ rw (e, unlink) (IsKept-refl root d r)
      | inr (directory, e) ↦ rw (e, unlink) (IsKept-refl root d r)
      | inr (file c, e) ↦ rw (e, unlink) (remove_tree-IsKept root t d r inner other)
    ]

    remove_directory-IsKept : t ≢ root → KeepsReply (remove_directory t)
    unfolding remove_directory
    remove_directory-IsKept other d r = elim (Option-cases (node_at t d)) [
      | inl e ↦ rw (e, remove_directory) (IsKept-refl root d r)
      | inr (file c, e) ↦ rw (e, remove_directory) (IsKept-refl root d r)
      | inr (directory, e) ↦ elim (Bool-cases (is_occupied t d)) [
        | inl f ↦ rw (e, f, remove_directory) (IsKept-refl root d r)
        | inr f ↦ rw (e, f, remove_directory) (remove_tree-IsKept root t d r inner other)
      ]
    ]

    rename_node-IsKept :
        (s : FilePath) → is_under root s ≡ true → KeepsReply (λ d. rename_node s t d)
    unfolding rename_node
    rename_node-IsKept s within d r = elim (Option-cases (node_at s d)) [
      | inl e ↦ rw (e, rename_node) (IsKept-refl root d r)
      | inr (n, e) ↦
          rw (e, rename_node)
            (outcome_reply-IsKept d (replace s t d) (replace-IsKept root s t d r within inner))
    ]

    rename_below-IsKept :
        (s : FilePath) (d : Disk) (o : Outcome)
        → is_under root s ≡ true
        → IsRooted root d
        → IsKept root d o.1
        → IsKept root d (rename_below s t o).1
    rename_below-IsKept s d (err e, d') within r k = k
    rename_below-IsKept s d (ok u, d') within r k =
        IsKept-trans root d d' (rename_node s t d').1 k
          (rename_node-IsKept s within d' (IsKept-IsRooted root d d' r k))

    below-IsKept : (d : Disk) → IsRooted root d → IsKept root d (make_dirs [] (parent t) d).1
    below-IsKept d r = make_dirs-IsKept root [] (parent t) d r (parent-IsReached root t inner)

-- A path that is not equal to the server's directory is another one.
different : (t root : FilePath) → path_eq t root ≡ false → t ≢ root
unfolding path_eq
different t root h same = cc (h, ap (λ p. path_eq p root) same, path_eq_refl root)

module _ (root : FilePath) (resolve : FilePath → FilePath) (permissions : List Text) where
  pub resolved-is_under :
      (path : Text) {t : FilePath}
      → resolved root resolve permissions path ≡ some t
      → is_under root t ≡ true
  unfolding resolved
  resolved-is_under path h = ground arith

  on_target-Keeps :
      (refused : Code) (path : Text) (f : FilePath → Disk → Reply)
      → ((t : FilePath) → is_under root t ≡ true → KeepsReply root (f t))
      → KeepsReply root (on_target root resolve permissions refused path f)
  unfolding on_target
  on_target-Keeps refused path f keeps d r =
      elim (Option-cases (resolved root resolve permissions path)) [
        | inl e ↦ rw (e, on_target) (IsKept-refl root d r)
        | inr (t, e) ↦ rw (e, on_target) (keeps t (resolved-is_under path e) d r)
      ]

  beside_root-Keeps :
      (t : FilePath) (f : Disk → Reply)
      → (t ≢ root → KeepsReply root f)
      → KeepsReply root (beside_root root resolve permissions t f)
  unfolding beside_root
  beside_root-Keeps t f keeps d r = elim (Bool-cases (path_eq t root)) [
    | inl e ↦ rw (e, beside_root) (IsKept-refl root d r)
    | inr e ↦ rw (e, beside_root) (keeps (different t root e) d r)
  ]

  -- A method behind a test of permissions.
  allowed-Keeps :
      (allowed : Bool) (f : Disk → Reply) (d : Disk)
      → KeepsReply root f
      → IsRooted root d
      → IsKept root d (if allowed then f d else reply denied d).1
  allowed-Keeps true f d keeps r = keeps d r
  allowed-Keeps false f d keeps r = IsKept-refl root d r

  list_at-Keeps : (t : FilePath) → KeepsReply root (list_at root resolve permissions t)
  unfolding list_at
  list_at-Keeps t d r = elim (Option-cases (node_at t d)) [
    | inl e ↦ rw (e, list_at) (IsKept-refl root d r)
    | inr (directory, e) ↦ rw (e, list_at) (IsKept-refl root d r)
    | inr (file c, e) ↦ rw (e, list_at) (IsKept-refl root d r)
  ]

  stat_at-Keeps : (t : FilePath) → KeepsReply root (stat_at root resolve permissions t)
  unfolding stat_at
  stat_at-Keeps t d r = elim (Option-cases (node_at t d)) [
    | inl e ↦ rw (e, stat_at) (IsKept-refl root d r)
    | inr (n, e) ↦ rw (e, stat_at) (IsKept-refl root d r)
  ]

  open_at-Keeps :
      (f : Flags) (t : FilePath)
      → is_under root t ≡ true
      → KeepsReply root (open_at root resolve permissions f t)
  unfolding open_at
  open_at-Keeps f t inner d r =
      allowed-Keeps (may_open root resolve permissions f)
        (λ d'. open_below (mode_of f) t (make_dirs [] (parent t) d')) d
        (λ d' r'.
          open_below-IsKept root t inner (mode_of f) d' (make_dirs [] (parent t) d') r'
            (below-IsKept root t inner d' r'))
        r

  pub perform-Keeps : (q : Request) → KeepsReply root (perform root resolve permissions q)
  unfolding perform
  perform-Keeps (list_folder path) d r =
      allowed-Keeps _ (on_target root resolve permissions denied path _) d
        (on_target-Keeps denied path _ (λ t inner. list_at-Keeps t)) r
  perform-Keeps (stat path) d r = on_target-Keeps denied path _ (λ t inner. stat_at-Keeps t) d r
  perform-Keeps (lstat path) d r = on_target-Keeps denied path _ (λ t inner. stat_at-Keeps t) d r
  perform-Keeps (open_file path f) d r = on_target-Keeps denied path _ (open_at-Keeps f) d r
  perform-Keeps (remove path) d r =
      allowed-Keeps _ (on_target root resolve permissions failed path _) d
        (on_target-Keeps failed path _
          (λ t inner. beside_root-Keeps t (unlink t) (unlink-IsKept root t inner)))
        r
  perform-Keeps (rmdir path) d r =
      allowed-Keeps _ (on_target root resolve permissions failed path _) d
        (on_target-Keeps failed path _ (λ t inner.
          beside_root-Keeps t (remove_directory t) (remove_directory-IsKept root t inner)))
        r
  perform-Keeps (mkdir path) d r =
      allowed-Keeps _ (on_target root resolve permissions failed path _) d
        (on_target-Keeps failed path _ (λ t inner d' r'.
          outcome_reply-IsKept root d' (make_dirs [] t d')
            (make_dirs-IsKept root [] t d' r' (whole-IsReached root t inner))))
        r
  perform-Keeps (rename old new) d r =
      allowed-Keeps _ (on_target root resolve permissions failed old _) d
        (on_target-Keeps failed old _ (λ s within. on_target-Keeps failed new _ (λ t inner.
          beside_root-Keeps s _ (λ other. beside_root-Keeps t _ (λ apart d' r'.
            rename_below-IsKept root t inner s d' (make_dirs [] (parent t) d') within r'
              (below-IsKept root t inner d' r'))))))
        r
  perform-Keeps (chattr path) d r = IsKept-refl root d r
