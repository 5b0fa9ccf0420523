-- ===== src/Processes/Launch.antt =====
-- wings/processes.py: the command of a server's process, `_startup`, `_runtime_identity`, `_entrypoint`
-- and `_adapt_reviactyl_entrypoint`, and what `_start_locked` makes of them.
use pywings.Prelude.{
  ◌++◌, Option, none, some, List, [], ◌∷◌, Text, lit, is_empty, has_text, strip, starts_with,
  if◌then◌else◌,
}
use pywings.Prelude.Dict
use pywings.Prelude.Dict.{Dict}
use pywings.Prelude.Patterns.{substitute, variable}
use pywings.Json.{Json, null, str, obj, Fields, get_or_null}
use pywings.Result.{Result, ok, err, value_error, ◌>>=◌}
use pywings.Filesystem.{Disk, make_dirs, and_give}
use pywings.Filesystem.Paths.{FilePath}
use pywings.Processes.Config.{sub, ◌or◌}
use pywings.Processes.Ports.{get_or}
use pywings.Processes.Environment.{sub_or, environment, apply_java_environment}
use pywings.Processes.Mounts.{volumes}

-- service.get(k) if isinstance(service, dict) else None, of `v or {}`
abbrev pub field_of : Text → Json → Json
field_of k (obj fs) = get_or_null k fs
field_of k v = null

-- The first candidate that is a text and not blank.
unfoldable pub first_text : List Json → Text
unfolding strip
first_text [] = []
first_text (str s ∷ vs) = let rest = first_text vs in if is_empty (strip s) then rest else strip s
first_text (v ∷ vs) = first_text vs

unfoldable pub text_or_null : Option Text → Json
text_or_null none = null
text_or_null (some s) = str s

unfoldable pub candidates : Fields → Dict Text → Result (List Json)
unfolding sub text_or_null get_or_null
candidates conf env = do
  inner ← sub (get_or_null (lit "container") conf) (lit "startup")
  ok (
      get_or_null (lit "invocation") conf
      ∷ text_or_null (Dict.lookup (lit "STARTUP") env)
      ∷ get_or_null (lit "startup") conf
      ∷ inner
      ∷ field_of (lit "startup") (get_or_null (lit "service") conf)
      ∷ field_of (lit "invocation") (get_or_null (lit "process_configuration") conf)
      ∷ [])

-- environment.get(name, match.group(0))
unfoldable pub value_or_match : Dict Text → Text → Text → Text
value_or_match env name whole = elim (Dict.lookup name env) [ none ↦ whole | some v ↦ v ]

unfoldable pub fill_in : Dict Text → Text → Text
fill_in env s = substitute variable (value_or_match env) 0 s

unfoldable pub or_idle : Text → Text
or_idle s = if is_empty s then lit "sh -c 'while true; do sleep 3600; done'" else s

-- `_startup`
unfoldable pub startup : Fields → Dict Text → Result Text
unfolding first_text
startup conf env = do vs ← candidates conf env; ok (fill_in env (or_idle (first_text vs)))

unfoldable pub directory_text : Json → Result Text
unfolding starts_with
directory_text (str s) =
    if starts_with s (lit "/")
    then ok s
    else err (value_error (lit "working directory must be an absolute container path"))
directory_text v = err (value_error (lit "working directory must be an absolute container path"))

unfoldable pub user_text : Json → Result (Option Text)
unfolding strip
user_text null = ok none
user_text (str s) =
    if is_empty (strip s)
    then err (value_error (lit "container user must be a non-empty string"))
    else ok (some (strip s))
user_text v = err (value_error (lit "container user must be a non-empty string"))

unfoldable pub place_of : Fields → Result Json
unfolding sub get_or_null
place_of conf =
    ok (get_or_null (lit "working_directory") conf)
    or ok (get_or_null (lit "workdir") conf)
    or sub (get_or_null (lit "container") conf) (lit "working_directory")
    or sub (get_or_null (lit "container") conf) (lit "workdir")
    or ok (str (lit "/home/container"))

unfoldable pub owner_of : Fields → Result Json
unfolding sub get_or_null
owner_of conf =
    ok (get_or_null (lit "user") conf) or sub (get_or_null (lit "container") conf) (lit "user")

-- `_runtime_identity`
unfoldable pub runtime_identity : Fields → Result (Text × Option Text)
unfolding place_of owner_of directory_text user_text
runtime_identity conf = do
  place ← place_of conf
  workdir ← directory_text place
  owner ← owner_of conf
  user ← user_text owner
  ok (workdir, user)

-- `_entrypoint`
unfoldable pub entrypoint_text : Json → Result (Option Text)
entrypoint_text null = ok none
entrypoint_text (str s) = ok (some s)
entrypoint_text v = err (value_error (lit "container entrypoint must be a string"))

unfoldable pub entrypoint : Fields → Result (Option Text)
unfolding sub_or entrypoint_text get_or
entrypoint conf = do
  inner ← sub_or (get_or_null (lit "container") conf) (lit "entrypoint") (str [])
  entrypoint_text (get_or (lit "entrypoint") inner conf)

-- `_adapt_reviactyl_entrypoint`
unfoldable pub adapt_reviactyl_entrypoint : Text → List Text → Option Text → List Text × Option Text
unfolding has_text
adapt_reviactyl_entrypoint image command (some []) =
    if has_text (lit "reviactyl/images") image
    then (lit "/__cacert_entrypoint.sh" ∷ command, some (lit "/bin/sh"))
    else (command, some [])
adapt_reviactyl_entrypoint image command point = (command, point)

-- What `start_async` is called with.
pub record Launch : Type 0 where
  pub image : Text
  pub command : List Text
  pub variables : Dict Text
  pub mounts : List Text
  pub workdir : Text
  pub user : Option Text
  pub point : Option Text

-- The end of it, from the mounts on.
unfoldable pub launch_with :
    Text → Fields → Dict Text → Text → Result (List Text) × Disk → Result Launch × Disk
launch_with image conf env invocation (mounted, d) = (
  do
    mounts ← mounted
    (workdir, user) ← runtime_identity conf
    point ← entrypoint conf
    let (command, adapted) =
        adapt_reviactyl_entrypoint image
          (lit "/bin/sh" ∷ lit "-c" ∷ (lit "exec " ++ invocation) ∷ []) point
    ok (record {
      image = image;
      command = command;
      variables = Dict.insert (lit "STARTUP") invocation env;
      mounts = mounts;
      workdir = workdir;
      user = user;
      point = adapted;
    }),
  d,
)

-- `configure` is ConfigParser(…).update_configuration_files(), whose exceptions are caught.
module _ (ip_address : Text → Option Text) (allowed : List FilePath)
    (resolve : Text → FilePath) where
  -- The part that has the directory of the server.
  unfoldable pub prepare_in :
      FilePath → (Dict Text → Disk → Disk) → Text → Fields → Dict Text → Disk → Result Launch × Disk
  prepare_in root configure image conf env d =
      let d' = configure env d in
      elim (startup conf env) [
        | err e ↦ (err e, d')
        | ok invocation ↦
            launch_with image conf env invocation (volumes allowed resolve root conf d')
      ]

  -- From the check of the configuration to the start of the process.
  unfoldable pub prepare :
      FilePath → (Dict Text → Disk → Disk) → Text → Fields → Disk → Result Launch × Disk
  prepare root configure image conf d = elim (environment ip_address conf) [
    | err e ↦ (err e, d)
    | ok raw ↦
        and_give (make_dirs [] root d)
          (prepare_in root configure image conf (apply_java_environment image raw))
  ]
