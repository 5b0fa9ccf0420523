-- ===== src/Processes/Reach.antt =====
-- The process manager of wings/processes.py as a system: any order of the calls of the API, the rounds
-- of the threads, and the ends of processes. Each step has its own host, so what is read may change.
-- The methods take a lock only around parts of what they do, so that other methods run between these
-- parts; the parts are steps too. A boot, from the entry of its process to the start of the thread that
-- watches it, is one part, and so is what `remove` takes out of the dictionaries and the store.
use pywings.Prelude.{
  ℕ, ◌+◌, ◌≡◌, ◌≢◌, true, false, ◌&&◌, none, List, [], ◌∷◌, ◌++◌, Text, text_eq, ◌==◌,
  if◌then◌else◌,
}
use pywings.Json.{Json}
use pywings.Events
use pywings.Events.{Event, Payload, mem, empty_bus}
use pywings.Servers.{State}
use pywings.Processes.Status.{set_server_state, kept_traffic}
use pywings.Numbers.{Whole}
use pywings.Processes.State.{
  Manager, Host, Watcher, Restart, is_alive, state_of, unregister, publish, log_activity,
}
use pywings.Processes.Start.{start, booted, keep_configuration}
use pywings.Processes.Stop.{
  Stopping, done, failed, waiting, begin_stop, end_stop, kill, remove, send_command, write, forget,
}
use pywings.Processes.Watch.{Regex, Plan, watch_line, watch_exit, crashed, auto_restart}
use pywings.Processes.Consistent.{is_watched}

-- The state in which a `Stopping` leaves the manager.
abbrev pub manager_of : Stopping → Manager
manager_of (done m) = m
manager_of (failed e m) = m
manager_of (waiting p m) = m

-- A watcher is a thread that ends, and so is a restart worker.
unfoldable pub drop_watcher : Text → ℕ → List Watcher → List Watcher
drop_watcher uuid p [] = []
drop_watcher uuid p (w ∷ ws) =
    let rest = drop_watcher uuid p ws in
    if text_eq w.server uuid && w.process == p then rest else w ∷ rest

-- One step.
pub data Step (m : Manager) : Manager → Type 0 where
  -- The API looks a server up before it starts it.
  starts :
      (h : Host) (uuid : Text) (conf : Json) → state_of m uuid ≢ none → Step m (start h uuid conf m)
  stop_begins :
      (h : Host) (uuid : Text) (conf : Json) → Step m (manager_of (begin_stop h uuid conf m))
  stop_ends : (h : Host) (uuid : Text) (p : ℕ) → Step m (end_stop h uuid p m)
  kills : (h : Host) (uuid : Text) → Step m (kill h uuid m)
  removes : (h : Host) (uuid : Text) → Step m (remove h uuid m)
  commands : (uuid line : Text) → Step m (send_command uuid line m).1
  lines :
      (h : Host) (re : Regex) (plan : Plan) (uuid line : Text) (p : ℕ)
      → is_watched uuid p m.watchers ≡ true
      → Step m (watch_line h re plan uuid line m)
  exits :
      (h : Host) (uuid : Text) (conf : Json) (p : ℕ) (code : Whole)
      → is_watched uuid p m.watchers ≡ true
      → is_alive m p ≡ false
      → Step m
          (record (watch_exit h uuid conf code m) { watchers = drop_watcher uuid p m.watchers })
  restarts_again :
      (h : Host) (r : Restart) (before after : List Restart)
      → m.restarts ≡ before ++ (r ∷ after)
      → Step m (auto_restart h r.server r.configuration (record m { restarts = before ++ after }))
  ends : (p : ℕ) → Step m (record m { alive = Events.discard p m.alive })
  -- The watcher of a process that has ended takes out what is registered for the server.
  pops :
      (uuid : Text) (p : ℕ)
      → is_watched uuid p m.watchers ≡ true
      → is_alive m p ≡ false
      → Step m (record (unregister uuid m) { watchers = drop_watcher uuid p m.watchers })
  -- `kill` and `stop` take it out as well.
  takes_out : (uuid : Text) → Step m (unregister uuid m)
  -- A state is set: by the second parts of `kill` and of a watcher, by an installation, by a start.
  marks : (h : Host) (uuid : Text) (state : State) → Step m (set_server_state h uuid state m)
  says : (uuid : Text) (event : Event) (args : List Payload) → Step m (publish uuid event args m)
  logs : (uuid event : Text) (metadata : Json) → Step m (log_activity uuid event metadata m)
  keeps : (h : Host) (uuid : Text) (conf : Json) → Step m (keep_configuration uuid conf m)
  writes : (p : ℕ) (line : Payload) → Step m (write p line m)
  boots : (h : Host) (uuid : Text) (conf : Json) → Step m (booted h uuid conf m)
  crashes :
      (h : Host) (uuid : Text) (conf : Json) (code : Whole) → Step m (crashed uuid conf code m)
  -- `stats`, which the API asks for.
  measures : (h : Host) (uuid : Text) → Step m (record m { last_net = kept_traffic h uuid m })
  forgets : (uuid : Text) → Step m (forget uuid m)
  ticks : (n : ℕ) → Step m (record m { clock = m.clock + n })

pub data Reach (m : Manager) : Manager → Type 0 where
  here : Reach m m
  next : {k n : Manager} → Reach m k → Step k n → Reach m n
