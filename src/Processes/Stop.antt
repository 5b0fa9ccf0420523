-- ===== src/Processes/Stop.antt =====
-- wings/processes.py: `stop`, `kill`, `restart`, `remove` and `send_command`.
use pywings.Prelude.{ℕ, ◌++◌, Option, none, some, [], ◌∷◌, Text, lit, if◌then◌else◌}
use pywings.Prelude.Dict
use pywings.Json.{Json, obj, str, end, get_or_null, truthy}
use pywings.Result.{Result, ok, err, Error, runtime_error, ◌>>=◌}
use pywings.Events
use pywings.Events.{daemon_message, console_output, Payload, plain, dumped}
use pywings.Servers
use pywings.Servers.{offline, stopping}
use pywings.Processes.Config.{sub}
use pywings.Processes.State.{
  Manager, Host, is_alive, publish, log_activity, without_all, unregister,
}
use pywings.Processes.Status.{set_server_state}
use pywings.Processes.Start.{start}

-- str(value)
abbrev pub printed : Json → Payload
printed (str s) = plain s
printed v = dumped v

-- The value that tells the server to stop, before the test whether it is true.
unfoldable pub stop_value : Json → Result Json
unfolding sub
stop_value conf = do
  process ← sub conf (lit "process_configuration")
  stop ← sub process (lit "stop")
  elim stop [
    | obj fs ↦ ok (get_or_null (lit "value") fs)
    | v ↦ ok (if truthy v then v else str (lit "stop"))
  ]

-- process.stdin.write of a text and a line end, which is left out.
abbrev pub write : ℕ → Payload → Manager → Manager
write p line m = record m { inputs = m.inputs ++ ((p, line) ∷ []) }

-- The first part of `stop`, up to the wait: nothing runs and all is done, or the process that is
-- to end. Where the stop value cannot be read, the exception leaves the server stopping.
pub data Stopping : Type 0 where
  done : Manager → Stopping
  failed : Error → Manager → Stopping
  waiting : ℕ → Manager → Stopping

-- The stop value is written to the process, if it is a true one.
unfoldable pub write_stop : ℕ → Result Json → Manager → Stopping
write_stop p (err e) m = failed e m
write_stop p (ok v) m = waiting p (if truthy v then write p (printed v) m else m)

unfoldable pub ask_to_stop : Host → Text → Json → ℕ → Manager → Stopping
unfolding write_stop
ask_to_stop h uuid conf p m = write_stop p (stop_value conf) (
    publish uuid daemon_message (plain (lit "[Wings Daemon]: Stopping server instance...") ∷ [])
      (set_server_state h uuid stopping m))

unfoldable pub stop_registered : Host → Text → Json → Option ℕ → Manager → Stopping
stop_registered h uuid conf none m = done (set_server_state h uuid offline m)
stop_registered h uuid conf (some p) m =
    if is_alive m p then ask_to_stop h uuid conf p m else done (set_server_state h uuid offline m)

unfoldable pub begin_stop : Host → Text → Json → Manager → Stopping
unfolding stop_registered
begin_stop h uuid conf m = stop_registered h uuid conf (Dict.lookup uuid m.processes) m

-- process.kill, or terminate_process_tree
abbrev pub kill_process : ℕ → Manager → Manager
kill_process p m = record m { alive = Events.discard p m.alive }

-- The part behind the wait: a process that still runs is killed.
unfoldable pub end_stop : Host → Text → ℕ → Manager → Manager
unfolding unregister set_server_state log_activity
end_stop h uuid p m =
    log_activity uuid (lit "server:power.stop") (obj end)
      (set_server_state h uuid offline (unregister uuid (kill_process p m)))

unfoldable pub finish_stop :
    Host → Text → (Manager → Manager) → Stopping → Result (Unit {0}) × Manager
finish_stop h uuid others (done m) = (ok tt, m)
finish_stop h uuid others (failed e m) = (err e, m)
finish_stop h uuid others (waiting p m) = (ok tt, end_stop h uuid p (others m))

-- `stop`. What the other threads do during the wait is a function on the state.
unfoldable pub stop :
    Host → Text → Json → (Manager → Manager) → Manager → Result (Unit {0}) × Manager
unfolding begin_stop finish_stop
stop h uuid conf others m = finish_stop h uuid others (begin_stop h uuid conf m)

-- The registered process, its group and every process of the server that /proc shows.
unfoldable pub kill_all : Host → Text → Option ℕ → Manager → Manager
unfolding without_all
kill_all h uuid none m = record m { alive = without_all (h.belonging uuid) m.alive }
kill_all h uuid (some p) m = record m {
  alive = without_all (h.belonging uuid) (Events.discard p m.alive);
}

-- `kill`, undisturbed: it holds a lock only around the first two entries, and Reach has its parts.
unfoldable pub kill : Host → Text → Manager → Manager
unfolding unregister log_activity kill_all set_server_state publish
kill h uuid m =
    let logged = log_activity uuid (lit "server:power.kill") (obj end) (unregister uuid m) in
    let killed = kill_all h uuid (Dict.lookup uuid m.processes) logged in
    publish uuid console_output (plain (lit "container@pterodactyl~ Server process killed.") ∷ []) (
      publish uuid daemon_message (plain (lit "[Wings Daemon]: Server process killed.") ∷ [])
        (set_server_state h uuid offline killed))

-- `restart`: an exception of `stop` leaves no server started.
unfoldable pub restart :
    Host → Text → Json → (Manager → Manager) → Manager → Result (Unit {0}) × Manager
restart h uuid conf others m =
    let (r, m') = stop h uuid conf others m in
    elim r [ err e ↦ (err e, m') | ok u ↦ (ok tt, start h uuid conf m') ]

-- What `remove` takes out of the dictionaries and of the store. The locks of servers and the caches of
-- the readings of the processor and of the disk are no part of the state here.
unfoldable pub forget : Text → Manager → Manager
forget uuid k = record k {
  processes = Dict.erase uuid k.processes;
  started_at = Dict.erase uuid k.started_at;
  last_crash = Dict.erase uuid k.last_crash;
  net_baseline = Dict.erase uuid k.net_baseline;
  last_net = Dict.erase uuid k.last_net;
  store = (Servers.remove uuid k.store).1;
}

-- `remove`, without the files of the server and the container of the runtime.
unfoldable pub remove : Host → Text → Manager → Manager
unfolding forget
remove h uuid m = set_server_state h uuid offline (forget uuid (kill h uuid m))

unfoldable pub send_command : Text → Text → Manager → Result (Unit {0}) × Manager
send_command uuid command m = elim (Dict.lookup uuid m.processes) [
  | none ↦ (err (runtime_error (lit "Cannot send commands to a stopped server instance.")), m)
  | some p ↦
      if is_alive m p
      then (ok tt, write p (plain command) m)
      else (err (runtime_error (lit "Cannot send commands to a stopped server instance.")), m)
]
