-- ===== src/Sftp/Sessions.antt =====
-- wings/sftp.py: the calls of one session one after the other, with the files that it has open and what
-- `_log_activity` writes.
use pywings.Prelude.{
  ℕ, zero, suc, Bool, true, false, ◌++◌, length, drop, Option, none, some, List, [], ◌∷◌, Text, lit,
  is_empty, if◌then◌else◌,
}
use pywings.Json.{Json, str, arr, obj, nil, cons, field, end}
use pywings.Activity.{Activity, record_event}
use pywings.Filesystem.{Disk, file, node_at, put}
use pywings.Filesystem.Paths.{FilePath, is_under, path_eq}
use pywings.Sftp.Handles.{write}
use pywings.Sftp.{
  Answer, code, handle, succeeded, failed, Flags, resolved, Mode, reading, mode_of, Request,
  open_file, remove, rename, mkdir, rmdir, perform,
}

-- What one client's interface has from its login.
pub record Session : Type 0 where
  pub permissions : List Text
  pub server : Option Text
  pub user : Option Text
  pub client_ip : Text

-- A file that the client has open, where it stands by now; none is one that is deleted.
pub record Opened : Type 0 where
  pub place : Option FilePath
  pub mode : Mode

pub record State : Type 0 where
  pub disk : Disk
  pub handles : List Opened
  pub activity : Option Activity

abbrev pub deleted : Text → Text × Json
deleted path = (lit "server:sftp.delete", obj (field (lit "files") (arr (cons (str path) nil)) end))

abbrev pub opened : Text → Mode → Option (Text × Json)
opened path reading = none
opened path mode = some (lit "server:sftp.write", obj (field (lit "file") (str path) end))

-- The event that a method logs, after its answer.
unfoldable pub event_of : Request → Answer → Option (Text × Json)
event_of (open_file path f) (handle t) = opened path (mode_of f)
event_of (remove path) (code succeeded) = some (deleted path)
event_of (rmdir path) (code succeeded) = some (deleted path)
event_of (rename old new) (code succeeded) =
    some (
      lit "server:sftp.rename",
      obj (field (lit "from") (str old) (field (lit "to") (str new) end)),
    )
event_of (mkdir path) (code succeeded) =
    some (lit "server:sftp.create-directory", obj (field (lit "directory") (str path) end))
event_of q a = none

-- `_log_activity`, where there is an event.
unfoldable pub log_activity : Session → ℕ → Option (Text × Json) → Option Activity → Option Activity
log_activity s now none activity = activity
log_activity s now (some e) none = none
log_activity s now (some (event, metadata)) (some a) = elim s.server [
  | none ↦ some a
  | some server ↦
      if is_empty server
      then some a
      else some (
          record_event
            (record {
              user = s.user;
              server = server;
              event = event;
              metadata = metadata;
              ip = s.client_ip;
              timestamp = now;
            })
            a)
]

-- The deletion of the file at a path, and the move of what is below one path to another, for an open
-- file: it stays open, and goes where the file goes.
unfoldable pub drop_place : FilePath → Option FilePath → Option FilePath
drop_place t none = none
drop_place t (some p) = if path_eq p t then none else some p

unfoldable pub move_place : FilePath → FilePath → Option FilePath → Option FilePath
move_place s t none = none
move_place s t (some p) =
    if path_eq s t
    then some p
    else if is_under s p
    then some (t ++ drop (length s) p)
    else if is_under t p
    then none
    else some p

unfoldable pub moved_handles : (Option FilePath → Option FilePath) → List Opened → List Opened
moved_handles f [] = []
moved_handles f (o ∷ os) = (record o { place = f o.place }) ∷ moved_handles f os

unfoldable pub is_success : Answer → Bool
is_success (code succeeded) = true
is_success a = false

unfoldable pub add_handle : Flags → Answer → List Opened → List Opened
add_handle f (handle t) os = os ++ ((record { place = some t; mode = mode_of f }) ∷ [])
add_handle f a os = os

abbrev pub handle_at : ℕ → List Opened → Option Opened
handle_at n [] = none
handle_at zero (o ∷ os) = some o
handle_at (suc n) (o ∷ os) = handle_at n os

-- What a write leaves of the file at a place; a deleted file has no place.
unfoldable pub write_place : ℕ → List ℕ → Option FilePath → Disk → Disk
write_place offset bytes none d = d
write_place offset bytes (some t) d = elim (node_at t d) [
  | some (file content) ↦ put t (file (write offset bytes content)) d
  | n ↦ d
]

-- `write` of a handle. A file that is open for reading raises; what is written reaches the file at once.
unfoldable pub write_opened : ℕ → List ℕ → Opened → Disk → Answer × Disk
write_opened offset bytes o d = elim o.mode [
  | reading ↦ (code failed, d)
  | mode ↦ (code succeeded, write_place offset bytes o.place d)
]

-- A method of the interface, or of a handle by its number; reads and the end of a handle change nothing.
pub data Call : Type 0 where
  ask : Request → Call
  write_handle : ℕ → ℕ → List ℕ → Call

module _ (root : FilePath) (resolve : FilePath → FilePath) (s : Session) where
  abbrev pub followed :
      (FilePath → Option FilePath → Option FilePath) → Text → List Opened → List Opened
  followed f path os = elim (resolved root resolve s.permissions path) [
    | none ↦ os
    | some t ↦ moved_handles (f t) os
  ]

  abbrev pub renamed : Text → Text → List Opened → List Opened
  renamed old new os = elim (resolved root resolve s.permissions old) [
    | none ↦ os
    | some source ↦ followed (move_place source) new os
  ]

  -- The open files after a request.
  unfoldable pub follow : Request → Answer → List Opened → List Opened
  follow (open_file path f) a os = add_handle f a os
  follow (remove path) a os = if is_success a then followed drop_place path os else os
  follow (rename old new) a os = if is_success a then renamed old new os else os
  follow q a os = os

  unfoldable pub serve : ℕ → Call → State → Answer × State
  serve now (ask q) st =
      let (answer, d) = perform root resolve s.permissions q st.disk in
      (
        answer,
        record st {
          disk = d;
          handles = follow q answer st.handles;
          activity = log_activity s now (event_of q answer) st.activity;
        },
      )
  serve now (write_handle n offset bytes) st = elim (handle_at n st.handles) [
    | none ↦ (code failed, st)
    | some o ↦
        let (answer, d) = write_opened offset bytes o st.disk in (answer, record st { disk = d })
  ]

  -- The calls with their times.
  unfoldable pub serve_all : List (ℕ × Call) → State → State
  serve_all [] st = st
  serve_all ((now, c) ∷ cs) st = serve_all cs (serve now c st).1
