-- ===== src/Sftp/Within.antt =====
-- The files that a session of wings/sftp.py has open stay in the server's directory.
use mathlib.Core.Path.{subst}
use pywings.Prelude.{
  ℕ, zero, suc, ◌≡◌, true, false, Bool, Option, none, some, List, [], ◌∷◌, ◌++◌, length, drop, Text,
  Bool-cases, Option-cases, inl, inr, All, if◌then◌else◌,
}
use pywings.Result.{ok, err}
use pywings.Filesystem.{Disk, Node, directory, file, node_at, make_dirs, parent, Outcome}
use pywings.Filesystem.Paths.{FilePath, is_under, path_eq}
use pywings.Filesystem.Prefixes.{is_under_trans, is_under-append}
use pywings.Filesystem.Confined.{IsRooted, IsKept, IsKept-refl, put-IsKept, file-other}
use pywings.Sftp.{
  Request, list_folder, stat, lstat, remove, mkdir, rmdir, chattr, open_file, rename, perform, Mode,
  mode_of, reading, updating, replacing, Flags, may_open, open_at, open_node, open_below, on_target,
  resolved, Answer, code, names, attributes, handle,
}
use pywings.Sftp.Handles.{write}
use pywings.Sftp.Sessions.{
  Session, Opened, drop_place, move_place, moved_handles, is_success, add_handle, handle_at,
  write_place, write_opened, followed, renamed, follow,
}
use pywings.Sftp.Confined.{resolved-is_under}

module _ (root : FilePath) where
  -- An open file stands in the server's directory, or nowhere.
  abbrev pub IsWithin : Option FilePath → Type 0
  IsWithin none = Unit
  IsWithin (some p) = is_under root p ≡ true

  abbrev pub AreWithin : List Opened → Type 0
  AreWithin = All λ o. IsWithin o.place

  drop_place-IsWithin :
      (t : FilePath) (o : Option FilePath) → IsWithin o → IsWithin (drop_place t o)
  unfolding drop_place
  drop_place-IsWithin t none w = tt
  drop_place-IsWithin t (some p) w =
      elim (path_eq p t) as (λ b. IsWithin (if b then none else some p)) [ true ↦ tt | false ↦ w ]

  move_place-IsWithin :
      (s t : FilePath) (o : Option FilePath)
      → is_under root t ≡ true
      → IsWithin o
      → IsWithin (move_place s t o)
  unfolding move_place
  move_place-IsWithin s t none inner w = tt
  move_place-IsWithin s t (some p) inner w = elim (Bool-cases (path_eq s t)) [
    | inl e ↦ rw (e, move_place) w
    | inr e ↦ elim (Bool-cases (is_under s p)) [
      | inl f ↦
          rw (e, f, move_place)
            (is_under_trans root t (t ++ drop (length s) p) inner
              (is_under-append t (drop (length s) p)))
      | inr f ↦ elim (Bool-cases (is_under t p)) [
        | inl g ↦ rw (e, f, g, move_place) tt
        | inr g ↦ rw (e, f, g, move_place) w
      ]
    ]
  ]

  moved_handles-AreWithin :
      (f : Option FilePath → Option FilePath) (os : List Opened)
      → ((o : Option FilePath) → IsWithin o → IsWithin (f o))
      → AreWithin os
      → AreWithin (moved_handles f os)
  unfolding moved_handles
  moved_handles-AreWithin f [] h w = tt
  moved_handles-AreWithin f (o ∷ os) h w = (h o.place w.0, moved_handles-AreWithin f os h w.1)

  pub handle_at-IsWithin :
      (n : ℕ) (os : List Opened) {o : Opened}
      → AreWithin os
      → handle_at n os ≡ some o
      → IsWithin o.place
  handle_at-IsWithin n [] w e = cc
  handle_at-IsWithin zero (v ∷ os) {o} w e =
      subst (λ u. IsWithin u.place) {x = v} {y = o} (cc (e)) w.0
  handle_at-IsWithin (suc n) (v ∷ os) w e = handle_at-IsWithin n os w.1 e

  write_place-IsKept :
      (offset : ℕ) (bytes : List ℕ) (o : Option FilePath) (d : Disk)
      → IsWithin o
      → IsRooted root d
      → IsKept root d (write_place offset bytes o d)
  unfolding write_place
  write_place-IsKept offset bytes none d w r = IsKept-refl root d r
  write_place-IsKept offset bytes (some t) d w r = elim (Option-cases (node_at t d)) [
    | inl e ↦ rw (e, write_place) (IsKept-refl root d r)
    | inr (directory, e) ↦ rw (e, write_place) (IsKept-refl root d r)
    | inr (file c, e) ↦
        rw (e, write_place)
          (put-IsKept root t (file (write offset bytes c)) d r w (file-other root t d r (λ f. cc)))
  ]

  pub write_opened-IsKept :
      (offset : ℕ) (bytes : List ℕ) (o : Opened) (d : Disk)
      → IsWithin o.place
      → IsRooted root d
      → IsKept root d (write_opened offset bytes o d).1
  unfolding write_opened
  write_opened-IsKept offset bytes o d w r =
      elim o.mode as (λ m. IsKept root d (write_opened offset bytes (record o { mode = m }) d).1) [
        | reading ↦ IsKept-refl root d r
        | updating ↦ write_place-IsKept offset bytes o.place d w r
        | replacing ↦ write_place-IsKept offset bytes o.place d w r
      ]

choice-AreWithin :
    (root : FilePath) (b : Bool) (xs ys : List Opened)
    → AreWithin root xs
    → AreWithin root ys
    → AreWithin root (if b then xs else ys)
choice-AreWithin root true xs ys v w = v
choice-AreWithin root false xs ys v w = w

module _ (root : FilePath) (resolve : FilePath → FilePath) (s : Session) where
  followed-AreWithin :
      (f : FilePath → Option FilePath → Option FilePath) (path : Text) (os : List Opened)
      → ((t : FilePath)
          → is_under root t ≡ true
          → (o : Option FilePath) → IsWithin root o
          → IsWithin root (f t o))
      → AreWithin root os
      → AreWithin root (followed root resolve s f path os)
  followed-AreWithin f path os h w =
      elim (Option-cases (resolved root resolve s.permissions path)) [
        | inl e ↦ rw (e, followed) w
        | inr (t, e) ↦
            rw (e, followed)
              (moved_handles-AreWithin root (f t) os
                (h t (resolved-is_under root resolve s.permissions path e)) w)
      ]

  -- A handle that an answer gives is on a file in the server's directory.
  abbrev IsInner : Answer → Type 0
  IsInner (handle t) = is_under root t ≡ true
  IsInner a = Unit

  append-AreWithin :
      (os : List Opened) (o : Opened)
      → AreWithin root os
      → IsWithin root o.place
      → AreWithin root (os ++ (o ∷ []))
  append-AreWithin [] o w v = (v, tt)
  append-AreWithin (u ∷ os) o w v = (w.0, append-AreWithin os o w.1 v)

  add_handle-AreWithin :
      (f : Flags) (a : Answer) (os : List Opened)
      → IsInner a
      → AreWithin root os
      → AreWithin root (add_handle f a os)
  unfolding add_handle
  add_handle-AreWithin f (handle t) os inner w = append-AreWithin os _ w inner
  add_handle-AreWithin f (code c) os inner w = w
  add_handle-AreWithin f (names ws) os inner w = w
  add_handle-AreWithin f (attributes n) os inner w = w

  open_node-IsInner :
      (mode : Mode) (t : FilePath) (n : Option Node) (d : Disk)
      → is_under root t ≡ true
      → IsInner (open_node mode t n d).0
  unfolding open_node
  open_node-IsInner reading t none d inner = tt
  open_node-IsInner updating t none d inner = inner
  open_node-IsInner replacing t none d inner = inner
  open_node-IsInner reading t (some directory) d inner = tt
  open_node-IsInner updating t (some directory) d inner = tt
  open_node-IsInner replacing t (some directory) d inner = tt
  open_node-IsInner reading t (some (file c)) d inner = inner
  open_node-IsInner updating t (some (file c)) d inner = inner
  open_node-IsInner replacing t (some (file c)) d inner = inner

  open_below-IsInner :
      (mode : Mode) (t : FilePath) (o : Outcome)
      → is_under root t ≡ true
      → IsInner (open_below mode t o).0
  open_below-IsInner mode t (err e, d) inner = tt
  open_below-IsInner mode t (ok u, d) inner = open_node-IsInner mode t (node_at t d) d inner

  open_file-IsInner :
      (path : Text) (f : Flags) (d : Disk)
      → IsInner (perform root resolve s.permissions (open_file path f) d).0
  unfolding perform on_target open_at
  open_file-IsInner path f d = elim (Option-cases (resolved root resolve s.permissions path)) [
    | inl e ↦ rw (e, perform, on_target) tt
    | inr (t, e) ↦ elim (Bool-cases (may_open root resolve s.permissions f)) [
      | inr g ↦ rw (e, g, perform, on_target, open_at) tt
      | inl g ↦
          rw (e, g, perform, on_target, open_at)
            (open_below-IsInner (mode_of f) t (make_dirs [] (parent t) d)
              (resolved-is_under root resolve s.permissions path e))
    ]
  ]

  pub follow-AreWithin :
      (q : Request) (d : Disk) (os : List Opened)
      → AreWithin root os
      → AreWithin root (follow root resolve s q (perform root resolve s.permissions q d).0 os)
  unfolding follow
  follow-AreWithin (open_file path f) d os w =
      add_handle-AreWithin f _ os (open_file-IsInner path f d) w
  follow-AreWithin (remove path) d os w =
      choice-AreWithin root _ _ _
        (followed-AreWithin drop_place path os (λ t inner o v. drop_place-IsWithin root t o v) w) w
  follow-AreWithin (rename old new) d os w =
      choice-AreWithin root (is_success (perform root resolve s.permissions (rename old new) d).0)
        (renamed root resolve s old new os) os
        (elim (Option-cases (resolved root resolve s.permissions old)) [
          | inl e ↦ rw (e, renamed) w
          | inr (source, e) ↦
              rw (e, renamed)
                (followed-AreWithin (move_place source) new os
                  (λ t inner o v. move_place-IsWithin root source t o inner v) w)
        ])
        w
  follow-AreWithin (list_folder path) d os w = w
  follow-AreWithin (stat path) d os w = w
  follow-AreWithin (lstat path) d os w = w
  follow-AreWithin (mkdir path) d os w = w
  follow-AreWithin (rmdir path) d os w = w
  follow-AreWithin (chattr path) d os w = w
