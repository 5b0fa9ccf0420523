-- ===== src/Processes/Start.antt =====
-- wings/processes.py: `start` and `_start_locked`.
use pywings.Prelude.{
  suc, ◌++◌, Bool, true, false, ◌||◌, Option, none, some, [], ◌∷◌, Text, lit, if◌then◌else◌,
}
use pywings.Prelude.Dict
use pywings.Json.{Json, obj, end, update_fields, get_or_null, truthy}
use pywings.Result.{Result, ok, err, attribute_error, ◌>>=◌}
use pywings.Events.{daemon_message, console_output, plain}
use pywings.Servers
use pywings.Servers.{Server, offline, starting, running, installing, same_state}
use pywings.Processes.Config.{sub, validate_configuration}
use pywings.Processes.State.{
  Manager, Host, is_running, publish, log_activity, server_of, current_state, without_all,
}
use pywings.Processes.Status.{set_server_state}

-- `isinstance(fresh_conf, dict) and fresh_conf`
unfoldable pub usable : Option Json → Option Json
unfolding truthy
usable (some (obj fs)) = if truthy (obj fs) then some (obj fs) else none
usable v = none

-- self.store.update_configuration
abbrev pub keep_configuration : Text → Json → Manager → Manager
keep_configuration uuid conf m = record m {
  store = (Servers.update_configuration uuid conf m.store).1;
}

-- The configuration of the Panel takes the place of the caller's.
unfoldable pub refresh : Host → Text → Json → Manager → Json × Manager
refresh h uuid conf m = elim (usable (h.panel uuid)) [
  | none ↦ (conf, m)
  | some fresh ↦ (fresh, keep_configuration uuid fresh m)
]

-- configuration.update(other)
unfoldable pub update : Json → Json → Option Json
unfolding update_fields
update (obj fs) (obj gs) = some (obj (update_fields fs gs))
update v w = none

-- Whether `container.image` or `image` is there.
unfoldable pub has_image : Json → Result Bool
unfolding sub
has_image (obj fs) = do
  v ← sub (get_or_null (lit "container") fs) (lit "image")
  ok (truthy v || truthy (get_or_null (lit "image") fs))
has_image v = err attribute_error

-- What the registry has fills up a configuration without an image.
unfoldable pub fill_from_store : Json → Option Server → Option Json
unfolding update truthy
fill_from_store conf none = some conf
fill_from_store conf (some r) =
    if truthy r.configuration then update conf r.configuration else some conf

-- Before that, what the Panel has fills it up. `none` is an exception.
unfoldable pub fill_from_panel : Host → Text → Json → Manager → Option Json × Manager
fill_from_panel h uuid conf m = elim (usable (h.panel uuid)) [
  | none ↦ (some conf, m)
  | some fresh ↦ elim (update conf fresh) [
    | none ↦ (some conf, m)
    | some filled ↦ (some filled, keep_configuration uuid filled m)
  ]
]

-- The configuration is looked at again once the Panel was asked.
unfoldable pub look_again : Text → Option Json × Manager → Option Json × Manager
look_again uuid (none, m) = (none, m)
look_again uuid (some conf, m) = elim (has_image conf) [
  | err e ↦ (none, m)
  | ok true ↦ (some conf, m)
  | ok false ↦ (fill_from_store conf (server_of m uuid), m)
]

unfoldable pub complete : Host → Text → Json → Manager → Option Json × Manager
complete h uuid conf m = elim (has_image conf) [
  | err e ↦ (none, m)
  | ok true ↦ (some conf, m)
  | ok false ↦ look_again uuid (fill_from_panel h uuid conf m)
]

-- From the new process to the threads that watch it.
unfoldable pub booted : Host → Text → Json → Manager → Manager
unfolding publish log_activity
booted h uuid conf m =
    let p = m.fresh in
    let registered : Manager = record m {
      fresh = suc p;
      alive = p ∷ m.alive;
      processes = Dict.insert uuid p m.processes;
      started_at = Dict.insert uuid m.clock m.started_at;
      net_baseline = Dict.insert uuid h.network m.net_baseline;
    } in
    let told =
      publish uuid daemon_message (plain (lit "[Wings Daemon]: Server process started.") ∷ [])
        registered in
    let logged = log_activity uuid (lit "server:power.start") (obj end) told in
    record logged {
      watchers = m.watchers ++ ((record { server = uuid; process = p; configuration = conf }) ∷ []);
    }

-- The `except` of `_start_locked`; the text of the error that follows each message is left out.
unfoldable pub boot_failed : Host → Text → Manager → Manager
boot_failed h uuid m =
    publish uuid console_output (plain (lit "container@pterodactyl~ Server boot failed") ∷ []) (
      publish uuid daemon_message (plain (lit "[Wings Daemon]: Failed to boot server") ∷ [])
        (set_server_state h uuid offline m))

-- The check of the configuration, and all that follows it up to `start_async`.
unfoldable pub launches : Host → Text → Json → Bool
launches h uuid conf = elim (validate_configuration conf) [
  | err e ↦ false
  | ok image ↦ h.boots uuid image conf
]

unfoldable pub launch : Host → Text → Option Json × Manager → Manager
launch h uuid (none, m) = boot_failed h uuid m
launch h uuid (some conf, m) =
    if launches h uuid conf then booted h uuid conf m else boot_failed h uuid m

-- `_cleanup_server_pids`
unfoldable pub cleanup : Host → Text → Manager → Manager
cleanup h uuid m = record m { alive = without_all (h.belonging uuid) m.alive }

unfoldable pub start_locked : Host → Text → Json → Manager → Manager
start_locked h uuid conf m =
    let marked = set_server_state h uuid starting m in
    let told =
      publish uuid daemon_message
        (plain (lit "[Wings Daemon]: Preparing server environment for boot...") ∷ []) marked in
    launch h uuid (complete h uuid conf (cleanup h uuid told))

-- A server that is marked as up with no process behind it goes offline first.
unfoldable pub recover : Host → Text → Manager → Manager
recover h uuid m =
    if same_state (current_state m uuid) starting || same_state (current_state m uuid) running
    then set_server_state h uuid offline m
    else m

-- A stopping server has no running process here, so `_wait_for_offline` returns at once.
unfoldable pub start : Host → Text → Json → Manager → Manager
start h uuid conf m =
    if same_state (current_state m uuid) installing
    then publish uuid daemon_message
        (plain (lit "[Wings Daemon]: Server is currently installing, cannot start.") ∷ []) m
    else if is_running m uuid
    then m
    else let (conf', m') = refresh h uuid conf (recover h uuid m) in start_locked h uuid conf' m'
