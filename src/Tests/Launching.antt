-- ===== src/Tests/Launching.antt =====
-- Runs of what a boot makes of a server's configuration.
use pywings.Prelude.{
  ◌≡◌, refl, ◌++◌, text_eq, join, starts_with, Option, none, some, List, [], ◌∷◌, All, Text, lit,
  has_char, split,
}
use pywings.Prelude.Dict
use pywings.Prelude.Dict.{Dict}
use pywings.Prelude.Patterns.{variable, is_word, substitute, run, after, closed, closed_name}
use pywings.Json.{Json, obj, arr, str, int, field, end, Fields, nil, cons}
use pywings.Json.Printed.{text_of}
use pywings.Result.{ok}
use pywings.Filesystem.{Disk, directory, and_give, make_dirs, node_at}
use pywings.Filesystem.Paths.{FilePath, parts, named, is_under, relative_text, path_eq}
use pywings.Processes.Config.{sub, limits_of}
use pywings.Processes.Ports.{
  port_number, publish_item, checked_address, publish_text, is_port, publishes,
}
use pywings.Processes.Published.{IsPublish, publishes-IsPublish}
use pywings.Processes.Environment.{
  configured, primary_port, invocation_of, defaults, environment, set_default, update_from,
  update_all, is_java_image, apply_java_environment,
}
use pywings.Processes.Defaults.{IsFilled, standard, environment-IsFilled}
use pywings.Processes.Filled.{is_name, placed, fill_in-placed}
use pywings.Processes.Launch.{
  fill_in, value_or_match, Launch, startup, prepare, prepare_in, candidates, first_text, or_idle,
  launch_with, runtime_identity, place_of, owner_of, directory_text, user_text, entrypoint,
  entrypoint_text, adapt_reviactyl_entrypoint,
}
use pywings.Processes.Mounts.{
  volumes, volumes_from, mounts_of, planned, mount_volumes, mount_volume, is_allowed, make_private,
  unless_mounted, targets_of,
}
use pywings.Processes.Prepared.{IsReady, prepare-IsReady}

abbrev address : Text → Option Text
address s = some s

abbrev port_entry : Json
port_entry = obj (field (lit "ip") (str (lit "10.0.0.7")) (field (lit "port") (int 25566) end))

abbrev conf : Fields
conf = field (lit "uuid") (str (lit "one")) (
    field (lit "ports") (arr (cons port_entry (cons (str (lit "80:8080")) nil))) (
      field (lit "environment") (obj (field (lit "JAR") (str (lit "server.jar")) end)) (
        field (lit "startup") (str (lit "java -jar {{JAR}} {{X}}")) (
          field (lit "mounts")
            (arr (
              cons
                (obj (
                  field (lit "source") (str (lit "/srv/maps"))
                    (field (lit "target") (str (lit "/tmp")) end)))
                nil))
            end))))

abbrev published : List Text
published = lit "10.0.0.7:25566:25566" ∷ lit "80:8080" ∷ []

publishes_run : publishes address conf ≡ ok published
unfolding publishes text_eq publish_item port_number is_port checked_address publish_text
publishes_run = refl

publishes-IsPublish_example : All IsPublish published
publishes-IsPublish_example = publishes-IsPublish address conf publishes_run

abbrev variables : Dict Text
variables =
    (lit "JAR", lit "server.jar")
    ∷ (lit "SERVER_UUID", lit "one")
    ∷ (lit "SERVER_PORT", lit "25566")
    ∷ (lit "SERVER_MEMORY", lit "1024")
    ∷ (lit "SERVER_IP", lit "0.0.0.0")
    ∷ (lit "STARTUP", lit "java -jar {{JAR}} {{X}}")
    ∷ (lit "TZ", lit "UTC")
    ∷ []

environment_run : environment address conf ≡ ok variables
unfolding environment publishes text_eq publish_item port_number is_port checked_address
    publish_text configured limits_of invocation_of primary_port defaults set_default update_from
    update_all Dict.lookup Dict.insert
environment_run = refl

environment-IsFilled_example :
    (set : Dict Text) × (configured conf ≡ ok set) × IsFilled standard set variables
environment-IsFilled_example = environment-IsFilled address conf environment_run

-- An address of version 6 has colons, and SERVER_PORT gets what stands before the first.
abbrev port_six : Fields
port_six =
    field (lit "ports")
      (arr
        (cons (obj (field (lit "ip") (str (lit "::5")) (field (lit "port") (int 25566) end))) nil))
      end

primary_port_run : primary_port port_six (lit "::5:25566:25566" ∷ []) ≡ []
unfolding primary_port split
primary_port_run = refl

fill_in-placed_example :
    fill_in variables (lit "java -jar " ++ placed (lit "JAR") (lit " {{X}}"))
    ≡ lit "java -jar "
      ++ ((elim (Dict.lookup (lit "JAR") variables) [ none ↦ placed (lit "JAR") [] | some v ↦ v ])
          ++ fill_in variables (lit " {{X}}"))
unfolding is_name has_char is_word
fill_in-placed_example =
    fill_in-placed variables (lit "java -jar ") (lit "JAR") (lit " {{X}}") refl refl

abbrev root : FilePath
root = lit "data" ∷ lit "one" ∷ []

abbrev allowed : List FilePath
allowed = (lit "srv" ∷ []) ∷ []

abbrev disk : Disk
disk = (lit "data" ∷ [], directory) ∷ (root, directory) ∷ []

abbrev mounted : List Text
mounted =
    lit "/data/one:/home/container" ∷ lit "/srv/maps:/tmp" ∷ lit "/data/one/.shm:/dev/shm" ∷ []

volumes_run : (volumes allowed parts root conf disk).0 ≡ ok mounted
unfolding volumes volumes_from mounts_of text_eq planned mount_volumes mount_volume is_allowed
    is_under parts named split make_private and_give make_dirs node_at unless_mounted relative_text
    path_eq text_of join starts_with sub targets_of
volumes_run = refl

abbrev launched : Launch
launched = record {
  image = lit "debian";
  command = lit "/bin/sh" ∷ lit "-c" ∷ lit "exec java -jar server.jar {{X}}" ∷ [];
  variables = Dict.insert (lit "STARTUP") (lit "java -jar server.jar {{X}}") variables;
  mounts = mounted;
  workdir = lit "/home/container";
  user = none;
  point = some [];
}

prepare_run :
    (prepare address allowed parts root (λ env d. d) (lit "debian") conf disk).0 ≡ ok launched
unfolding prepare environment configured publishes publish_item port_number is_port checked_address
    publish_text limits_of invocation_of primary_port defaults set_default update_from prepare_in
    startup candidates first_text fill_in or_idle value_or_match substitute variable run after
    closed closed_name is_word apply_java_environment is_java_image launch_with runtime_identity
    place_of owner_of directory_text user_text entrypoint entrypoint_text adapt_reviactyl_entrypoint
    Dict.lookup Dict.insert volumes volumes_from mounts_of text_eq planned mount_volumes
    mount_volume is_allowed is_under parts named split make_private and_give make_dirs node_at
    unless_mounted relative_text path_eq text_of join starts_with sub targets_of update_all
prepare_run = refl

prepare-IsReady_example : IsReady allowed root launched
prepare-IsReady_example =
    prepare-IsReady address allowed parts root (λ env d. d) (lit "debian") conf disk prepare_run
