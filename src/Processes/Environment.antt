-- ===== src/Processes/Environment.antt =====
-- wings/processes.py: the environment of a server's process, `_environment` and
-- `_apply_java_environment`.
use pywings.Prelude.{
  Bool, ◌||◌, ◌++◌, Option, none, some, List, [], ◌∷◌, any, Text, lit, text_eq, is_empty, has_text,
  lower, split, if◌then◌else◌,
}
use pywings.Prelude.Dict
use pywings.Prelude.Dict.{Dict}
use pywings.Json.{Json, str, int, obj, Fields, end, field, get_or_null, truthy, or_else}
use pywings.Json.Printed.{text_of}
use pywings.Result.{Result, ok, err, attribute_error, ◌>>=◌}
use pywings.Processes.Config.{sub, limits_of}
use pywings.Processes.Ports.{get_or, publishes}

-- environment.update({str(key): str(value) …}), where the source is a dict.
unfoldable pub update_all : Fields → Dict Text → Dict Text
unfolding text_of
update_all end env = env
update_all (field k v fs) env = update_all fs (Dict.insert k (text_of v) env)

unfoldable pub update_from : Json → Dict Text → Dict Text
update_from (obj fs) env = update_all fs env
update_from v env = env

-- environment.setdefault(name, value)
unfoldable pub set_default : Text → Text → Dict Text → Dict Text
set_default name value env = elim (Dict.lookup name env) [
  | none ↦ Dict.insert name value env
  | some v ↦ env
]

-- d.get(k, default) of `v or {}`
unfoldable pub sub_or : Json → Text → Json → Result Json
unfolding truthy get_or
sub_or v k default =
    if truthy v
    then (elim v [ obj fs ↦ ok (get_or k default fs) | w ↦ err attribute_error ])
    else ok default

-- The first port, or what stands after the address.
abbrev pub second_of_three : Text × List Text → Text
second_of_three (a, b ∷ c ∷ []) = b
second_of_three (a, more) = a

unfoldable pub primary_port : Fields → List Text → Text
unfolding split text_of get_or
primary_port conf (p ∷ ps) = second_of_three (split b':' p)
primary_port conf [] = text_of (get_or (lit "server_port") (str (lit "25565")) conf)

-- The value of STARTUP, before str().
unfoldable pub invocation_of : Fields → Result Json
unfolding truthy sub_or
invocation_of conf =
    let v =
      or_else (get_or_null (lit "invocation") conf)
        (or_else (get_or_null (lit "startup") conf) (str [])) in
    if truthy v
    then ok v
    else sub_or (get_or_null (lit "process_configuration") conf) (lit "startup") (str [])

-- The variables that the configuration sets: each source goes over the ones before it.
unfoldable pub configured : Fields → Result (Dict Text)
unfolding sub
configured conf = do
  process ← sub (get_or_null (lit "process_configuration") conf) (lit "environment")
  container ← sub (get_or_null (lit "container") conf) (lit "environment")
  ok (
      update_from (get_or_null (lit "environment") conf)
        (update_from container (update_from process [])))

-- What is set where the configuration does not set it.
unfoldable pub defaults : Text → Text → Text → Text → Dict Text → Dict Text
defaults uuid port memory startup env = set_default (lit "TZ") (lit "UTC") (
    set_default (lit "STARTUP") startup (
      set_default (lit "SERVER_IP") (lit "0.0.0.0") (
        set_default (lit "SERVER_MEMORY") memory
          (set_default (lit "SERVER_PORT") port (set_default (lit "SERVER_UUID") uuid env)))))

module _ (ip_address : Text → Option Text) where
  -- `_environment`
  unfoldable pub environment : Fields → Result (Dict Text)
  environment conf = do
    env ← configured conf
    ports ← publishes ip_address conf
    limits ← limits_of conf
    startup ← invocation_of conf
    ok (
        defaults (text_of (get_or (lit "uuid") (str []) conf)) (primary_port conf ports)
          (text_of (get_or (lit "memory") (int 1024) limits)) (text_of startup) env)

unfoldable pub standard_paths : Text
standard_paths = lit "/usr/local/sbin:/usr/local/bin:/usr/sbin:/usr/bin:/sbin:/bin"

-- environment.get(name, "")
unfoldable pub variable_or_empty : Text → Dict Text → Text
variable_or_empty name env = elim (Dict.lookup name env) [ none ↦ [] | some v ↦ v ]

unfoldable pub is_listed : Text → Text × List Text → Bool
is_listed name (w, ws) = any (text_eq name) (w ∷ ws)

-- The search path with the directory of Java in it, where it changes.
unfoldable pub with_java : Text → Text → Option Text
with_java java_bin current =
    if is_empty current
    then some (java_bin ++ (b':' ∷ standard_paths))
    else if is_listed java_bin (split b':' current)
    then none
    else some (java_bin ++ (b':' ∷ current))

abbrev pub java_bin_of : Dict Text → Text
java_bin_of env = variable_or_empty (lit "JAVA_HOME") env ++ lit "/bin"

unfoldable pub set_java_path : Dict Text → Dict Text
set_java_path env = elim (with_java (java_bin_of env) (variable_or_empty (lit "PATH") env)) [
  | none ↦ env
  | some path ↦ Dict.insert (lit "PATH") path env
]

unfoldable pub is_java_image : Text → Bool
unfolding lower has_text
is_java_image image =
    has_text (lit "eclipse-temurin") (lower image)
    || has_text (lit "reviactyl/images") (lower image)

-- `_apply_java_environment`
unfoldable pub apply_java_environment : Text → Dict Text → Dict Text
apply_java_environment image env =
    if is_java_image image
    then set_java_path (set_default (lit "JAVA_HOME") (lit "/opt/java/openjdk") env)
    else env
