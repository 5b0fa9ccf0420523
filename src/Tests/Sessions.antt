-- ===== src/Tests/Sessions.antt =====
-- Runs of SFTP sessions.
use pywings.Prelude.{
  ℕ, ◌≡◌, refl, text_eq, text_eq_iff, split, lstrip, split_last, has_char, arith, true, false, none,
  some, List, [], ◌∷◌, Text, lit, take, drop,
}
use pywings.Json.{Fields, obj, str, null, field, end, get_or_null}
use pywings.Prelude.Dict
use pywings.Servers
use pywings.Servers.{Server, Store, offline}
use pywings.Filesystem.{Disk, directory, file, node_at, make_dirs}
use pywings.Filesystem.Paths.{FilePath, is_under, path_eq, parts, named, unrooted}
use pywings.Filesystem.Confined.{IsRooted, IsKept}
use pywings.Sftp.{
  Flags, on_target, resolved, open_at, may_open, is_writing, open_node, mode_of, is_blocked,
  missing, open_file, remove, rename, perform, code, no_such_file,
}
use pywings.Sftp.Permissions.{has_perm, holds}
use pywings.Sftp.Handles.{read, write, padded, read-write}
use pywings.Sftp.Login.{
  check_auth_password, is_valid_username, without_line_end, known_server, if_present,
  check_auth_password-present,
}
use pywings.Sftp.Sessions.{Session, State, Call, ask, write_handle, serve_all}
use pywings.Sftp.Modes.{bits_of, node_bits}
use pywings.Sftp.Readers.{IsGrown}
use pywings.Sftp.Allowed.{session-IsKept, session-IsGrown, IsReader}

abbrev root : FilePath
root = lit "one" ∷ []

abbrev straight : FilePath → FilePath
straight p = p

abbrev disk : Disk
disk = (root, directory) ∷ ([], directory) ∷ (lit "one" ∷ lit "a" ∷ [], file (7 ∷ [])) ∷ []

abbrev state : State
state = record {
  disk = disk;
  handles = [];
  activity = some (record { queue = []; max_batch = 10 });
}

abbrev session : List Text → Session
session permissions = record {
  permissions = permissions;
  server = some (lit "one");
  user = none;
  client_ip = lit "10.0.0.1";
}

abbrev writes : Flags
writes = record { write_only = true; read_write = false; create = true; truncate = true }

abbrev calls : List (ℕ × Call)
calls =
    (5, ask (open_file (lit "/b") writes))
    ∷ (6, ask (rename (lit "b") (lit "c")))
    ∷ (7, write_handle 0 0 (1 ∷ 2 ∷ []))
    ∷ (8, ask (remove (lit "a")))
    ∷ []

disk-IsRooted : IsRooted root disk
unfolding is_under node_at text_eq
disk-IsRooted [] h = refl
disk-IsRooted (a ∷ []) h = ground (arith, text_eq_iff a (lit "one"))
disk-IsRooted (a ∷ b ∷ p) h = ground arith

session-IsKept_example :
    IsKept root disk (serve_all root straight (session (lit "*" ∷ [])) calls state).disk
session-IsKept_example =
    session-IsKept root straight (session (lit "*" ∷ [])) calls state disk-IsRooted tt

reader-IsReader : IsReader root straight (session (lit "file.read" ∷ []))
unfolding has_perm holds
reader-IsReader = record { create = refl; update = refl; delete = refl }

session-IsGrown_example :
    let last = serve_all root straight (session (lit "file.read" ∷ [])) calls state in
    IsGrown disk last.disk × (last.activity ≡ state.activity)
session-IsGrown_example =
    session-IsGrown root straight (session (lit "file.read" ∷ [])) reader-IsReader calls state tt

abbrev reads : Flags
reads = record { write_only = false; read_write = false; create = false; truncate = false }

-- An attempt to read a file that is not there makes the directory above it.
reading_grows :
    perform root straight (lit "file.read" ∷ []) (open_file (lit "/x/y") reads) disk
    ≡ (code no_such_file, (lit "one" ∷ lit "x" ∷ [], directory) ∷ disk)
unfolding perform on_target resolved is_under text_eq open_at may_open is_writing has_perm holds
    make_dirs parts named split unrooted lstrip node_at open_node mode_of path_eq is_blocked missing
reading_grows = refl

read-write_example :
    let written = write 3 (1 ∷ 2 ∷ []) (9 ∷ []) in
    (read 3 2 written ≡ 1 ∷ 2 ∷ [])
    × (take 3 written ≡ padded 3 (9 ∷ []))
    × (drop 5 written ≡ drop 5 (9 ∷ []))
read-write_example = read-write 3 1 (2 ∷ []) (9 ∷ [])

abbrev store : Store
store = record {
  servers =
      (
        lit "one",
        record { uuid = lit "one"; configuration = null; state = offline; is_suspended = false },
      )
      ∷ [];
  file = none;
}

abbrev info : Fields
info = field (lit "server") (str (lit "one")) end

login_run :
    check_auth_password (λ u p. some (obj info)) store (lit "ann.b.0a1b2c3d") (lit "pw") ≡ some info
unfolding check_auth_password is_valid_username split_last without_line_end has_char known_server
    if_present get_or_null text_eq Dict.lookup
login_run = refl

check_auth_password-present_example :
    (is_valid_username (lit "ann.b.0a1b2c3d") ≡ true)
    × (some (obj info) ≡ some (obj info))
    × ((uuid : Text) × (r : Server) × (get_or_null (lit "server") info ≡ str uuid)
        × (Servers.get store uuid ≡ some r))
check_auth_password-present_example =
    check_auth_password-present (λ u p. some (obj info)) store (lit "ann.b.0a1b2c3d") (lit "pw")
      login_run

-- A client that opens the server's directory makes the directory above it writable for everybody.
opening_root :
    bits_of root straight (lit "file.read" ∷ []) (open_file (lit "/") reads) disk
    ≡ ([], 511) ∷ (root, 438) ∷ []
unfolding bits_of resolved is_under text_eq may_open is_writing has_perm holds make_dirs parts named
    split unrooted lstrip node_at path_eq node_bits mode_of
opening_root = refl
