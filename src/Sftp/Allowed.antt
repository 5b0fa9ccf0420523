-- ===== src/Sftp/Allowed.antt =====
-- What whole sessions of wings/sftp.py may change.
use mathlib.Core.Path.{subst}
use pywings.Prelude.{
  ℕ, zero, suc, ◌≡◌, ◌∙◌, refl, ap, true, false, Bool, Option, none, some, List, [], ◌∷◌, ◌++◌,
  Text, lit, arith, Bool-cases, Option-cases, inl, inr, All, if◌then◌else◌,
}
use pywings.Filesystem.{Disk}
use pywings.Filesystem.Paths.{FilePath}
use pywings.Filesystem.Confined.{IsRooted, IsKept, IsKept-refl, IsKept-trans, IsKept-IsRooted}
use pywings.Sftp.{
  Request, list_folder, stat, lstat, remove, mkdir, rmdir, chattr, open_file, rename, perform, Mode,
  mode_of, reading, updating, replacing, Flags, is_writing, may_open, open_at, on_target, resolved,
  Answer, code, names, attributes, handle, failed,
}
use pywings.Sftp.Permissions.{has_perm}
use pywings.Sftp.Sessions.{
  Session, State, Opened, Call, ask, write_handle, event_of, opened, log_activity, serve, serve_all,
  drop_place, move_place, moved_handles, is_success, add_handle, handle_at, write_opened, followed,
  renamed, follow,
}
use pywings.Sftp.Confined.{perform-Keeps}
use pywings.Sftp.Readers.{IsGrown, IsGrown-refl, IsGrown-trans, perform-IsGrown}
use pywings.Sftp.Within.{AreWithin, handle_at-IsWithin, write_opened-IsKept, follow-AreWithin}

-- All the open files are open for reading only.
abbrev pub AreReading : List Opened → Type 0
AreReading = All λ o. o.mode ≡ reading

choice-AreReading :
    (b : Bool) (xs ys : List Opened)
    → AreReading xs
    → AreReading ys
    → AreReading (if b then xs else ys)
choice-AreReading true xs ys v w = v
choice-AreReading false xs ys v w = w

append-AreReading :
    (os : List Opened) (o : Opened) → AreReading os → o.mode ≡ reading → AreReading (os ++ (o ∷ []))
append-AreReading [] o w v = (v, tt)
append-AreReading (u ∷ os) o w v = (w.0, append-AreReading os o w.1 v)

moved_handles-AreReading :
    (f : Option FilePath → Option FilePath) (os : List Opened)
    → AreReading os
    → AreReading (moved_handles f os)
unfolding moved_handles
moved_handles-AreReading f [] w = tt
moved_handles-AreReading f (o ∷ os) w = (w.0, moved_handles-AreReading f os w.1)

handle_at-reading :
    (n : ℕ) (os : List Opened) {o : Opened}
    → AreReading os
    → handle_at n os ≡ some o
    → o.mode ≡ reading
handle_at-reading n [] w e = cc
handle_at-reading zero (v ∷ os) {o} w e = subst (λ u. u.mode ≡ reading) {x = v} {y = o} (cc (e)) w.0
handle_at-reading (suc n) (v ∷ os) w e = handle_at-reading n os w.1 e

opened-reading : (path : Text) (mode : Mode) → opened path mode ≡ none → mode ≡ reading
opened-reading path reading h = refl
opened-reading path updating h = cc
opened-reading path replacing h = cc

write_opened-reading :
    (offset : ℕ) (bytes : List ℕ) (o : Opened) (d : Disk)
    → o.mode ≡ reading
    → write_opened offset bytes o d ≡ (code failed, d)
unfolding write_opened
write_opened-reading offset bytes o d h = rw (h, write_opened) refl

module _ (root : FilePath) (resolve : FilePath → FilePath) (s : Session) where
  serve-IsKept :
      (now : ℕ) (c : Call) (st : State)
      → IsRooted root st.disk
      → AreWithin root st.handles
      → IsKept root st.disk (serve root resolve s now c st).1.disk
        × AreWithin root (serve root resolve s now c st).1.handles
  unfolding serve
  serve-IsKept now (ask q) st r w = (
    perform-Keeps root resolve s.permissions q st.disk r,
    follow-AreWithin root resolve s q st.disk st.handles w,
  )
  serve-IsKept now (write_handle n offset bytes) st r w =
      elim (Option-cases (handle_at n st.handles)) [
        | inl e ↦ rw (e, serve) (IsKept-refl root st.disk r, w)
        | inr (o, e) ↦
            rw (e, serve)
              (
                write_opened-IsKept root offset bytes o st.disk
                    (handle_at-IsWithin root n st.handles w e) r,
                w,
              )
      ]

  -- Whatever a client with any permissions asks in a session, and writes to the files that it opens,
  -- with paths of any form and however links and dots are resolved: the bits of the permissions apart,
  -- every file and directory of the host outside the server's directory is afterwards as it was, and the
  -- server's directory is still there. The directory and all above it are directories to begin with,
  -- and the files that are open at the start are in it.
  pub session-IsKept :
      (cs : List (ℕ × Call)) (st : State)
      → IsRooted root st.disk
      → AreWithin root st.handles
      → IsKept root st.disk (serve_all root resolve s cs st).disk
  unfolding serve_all
  session-IsKept [] st r w = IsKept-refl root st.disk r
  session-IsKept ((now, c) ∷ cs) st r w =
      let (k, v) = serve-IsKept now c st r w in
      let next = (serve root resolve s now c st).1 in
      IsKept-trans root st.disk next.disk (serve_all root resolve s cs next).disk k
        (session-IsKept cs next (IsKept-IsRooted root st.disk next.disk r k) v)

  -- A user who may not create, update or delete files.
  pub record IsReader : Type 0 where
    pub create : has_perm s.permissions (lit "file.create") ≡ false
    pub update : has_perm s.permissions (lit "file.update") ≡ false
    pub delete : has_perm s.permissions (lit "file.delete") ≡ false

  -- An opened file that is not written to is logged nowhere.
  mode_of-reading : (f : Flags) → is_writing f ≡ false → mode_of f ≡ reading
  unfolding is_writing mode_of
  mode_of-reading f h = ground arith

  reading-quiet :
      (path : Text) (f : Flags) (a : Answer)
      → mode_of f ≡ reading
      → event_of (open_file path f) a ≡ none
  unfolding event_of
  reading-quiet path f (code c) h = refl
  reading-quiet path f (names ws) h = refl
  reading-quiet path f (attributes n) h = refl
  reading-quiet path f (handle t) h = ap (opened path) h

  followed-AreReading :
      (f : FilePath → Option FilePath → Option FilePath) (path : Text) (os : List Opened)
      → AreReading os
      → AreReading (followed root resolve s f path os)
  followed-AreReading f path os w = elim (Option-cases (resolved root resolve s.permissions path)) [
    | inl e ↦ rw (e, followed) w
    | inr (t, e) ↦ rw (e, followed) (moved_handles-AreReading (f t) os w)
  ]

  -- A request without an event opens files for reading only.
  follow-AreReading :
      (q : Request) (a : Answer) (os : List Opened)
      → event_of q a ≡ none
      → AreReading os
      → AreReading (follow root resolve s q a os)
  unfolding follow event_of add_handle
  follow-AreReading (open_file path f) (handle t) os h w =
      append-AreReading os _ w (opened-reading path (mode_of f) h)
  follow-AreReading (open_file path f) (code c) os h w = w
  follow-AreReading (open_file path f) (names ws) os h w = w
  follow-AreReading (open_file path f) (attributes n) os h w = w
  follow-AreReading (remove path) a os h w =
      choice-AreReading (is_success a) _ _ (followed-AreReading drop_place path os w) w
  follow-AreReading (rename old new) a os h w =
      choice-AreReading (is_success a) (renamed root resolve s old new os) os
        (elim (Option-cases (resolved root resolve s.permissions old)) [
          | inl e ↦ rw (e, renamed) w
          | inr (source, e) ↦ rw (e, renamed) (followed-AreReading (move_place source) new os w)
        ])
        w
  follow-AreReading (list_folder path) a os h w = w
  follow-AreReading (stat path) a os h w = w
  follow-AreReading (lstat path) a os h w = w
  follow-AreReading (mkdir path) a os h w = w
  follow-AreReading (rmdir path) a os h w = w
  follow-AreReading (chattr path) a os h w = w

  module _ (reader : IsReader) where
    open_at-quiet :
        (path : Text) (f : Flags) (t : FilePath) (d : Disk)
        → event_of (open_file path f) (open_at root resolve s.permissions f t d).0 ≡ none
    unfolding open_at may_open event_of
    open_at-quiet path f t d = elim (Bool-cases (is_writing f)) [
      | inl e ↦ rw (e, reader.create, reader.update, open_at, may_open) refl
      | inr e ↦ reading-quiet path f _ (mode_of-reading f e)
    ]

    perform-quiet :
        (q : Request) (d : Disk) → event_of q (perform root resolve s.permissions q d).0 ≡ none
    unfolding perform event_of on_target
    perform-quiet (list_folder path) d = refl
    perform-quiet (stat path) d = refl
    perform-quiet (lstat path) d = refl
    perform-quiet (open_file path f) d =
        elim (Option-cases (resolved root resolve s.permissions path)) [
          | inl e ↦ rw (e, perform, on_target) refl
          | inr (t, e) ↦ rw (e, perform, on_target) (open_at-quiet path f t d)
        ]
    perform-quiet (remove path) d = rw (reader.delete, perform) refl
    perform-quiet (rmdir path) d = rw (reader.delete, perform) refl
    perform-quiet (mkdir path) d = rw (reader.create, perform) refl
    perform-quiet (rename old new) d = rw (reader.create, reader.update, perform) refl
    perform-quiet (chattr path) d = refl

    serve-IsGrown :
        (now : ℕ) (c : Call) (st : State)
        → AreReading st.handles
        → IsGrown st.disk (serve root resolve s now c st).1.disk
          × AreReading (serve root resolve s now c st).1.handles
          × ((serve root resolve s now c st).1.activity ≡ st.activity)
    unfolding serve log_activity
    serve-IsGrown now (ask q) st w =
        let quiet = perform-quiet q st.disk in
        (
          perform-IsGrown root resolve s.permissions q st.disk quiet,
          follow-AreReading q _ st.handles quiet w,
          ap (λ e. log_activity s now e st.activity) quiet,
        )
    serve-IsGrown now (write_handle n offset bytes) st w =
        elim (Option-cases (handle_at n st.handles)) [
          | inl e ↦ rw (e, serve) (IsGrown-refl st.disk, w, refl)
          | inr (o, e) ↦
              rw
                (
                  e,
                  write_opened-reading offset bytes o st.disk (handle_at-reading n st.handles w e),
                  serve,
                )
                (IsGrown-refl st.disk, w, refl)
        ]

    -- Whatever a client asks in a session without the permission to create, to update or to delete
    -- files, and tries to write to the files that it opens: all that was on the disk is still there with
    -- its content, every file that is on it now was there before, so that at most directories are new,
    -- and the log of activities is as it was. Files that are open at the start are open for reading.
    pub session-IsGrown :
        (cs : List (ℕ × Call)) (st : State)
        → AreReading st.handles
        → let last = serve_all root resolve s cs st in
          IsGrown st.disk last.disk × (last.activity ≡ st.activity)
    unfolding serve_all
    session-IsGrown [] st w = (IsGrown-refl st.disk, refl)
    session-IsGrown ((now, c) ∷ cs) st w =
        let (grown, still, same) = serve-IsGrown now c st w in
        let next = (serve root resolve s now c st).1 in
        let (more, rest) = session-IsGrown cs next still in
        (
          IsGrown-trans st.disk next.disk (serve_all root resolve s cs next).disk grown more,
          rest ∙ same,
        )
