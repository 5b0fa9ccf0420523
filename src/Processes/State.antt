-- ===== src/Processes/State.antt =====
-- wings/processes.py: the state of `ProcessManager`, with the operating system's part of it.
use pywings.Prelude.{ℕ, Bool, false, Option, none, some, List, [], ◌∷◌, Text, lit}
use pywings.Prelude.Dict
use pywings.Prelude.Dict.{Dict}
use pywings.Json.{Json}
use pywings.Events
use pywings.Events.{Event, Payload, Bus, mem}
use pywings.Activity.{Activity, record_event}
use pywings.Servers
use pywings.Servers.{Server, Store, State}

-- A thread that runs `_watch` for a process, and one that runs `_auto_restart_worker`.
pub record Watcher : Type 0 where
  pub server : Text
  pub process : ℕ
  pub configuration : Json

pub record Restart : Type 0 where
  pub server : Text
  pub configuration : Json

-- A process is a number that no other process ever gets, as a `Popen` object is itself only.
-- Times are milliseconds of the monotonic clock.
pub record Manager : Type 0 where
  pub store : Store
  pub bus : Bus
  pub activity : Option Activity
  pub processes : Dict ℕ
  pub started_at : Dict ℕ
  pub last_crash : Dict ℕ
  pub net_baseline : Dict (ℕ × ℕ)
  pub last_net : Dict (ℕ × ℕ)
  -- The processes that run: `poll()` of another one is not None.
  pub alive : List ℕ
  pub fresh : ℕ
  pub clock : ℕ
  -- What was written to the input of processes, in order.
  pub inputs : List (ℕ × Payload)
  pub watchers : List Watcher
  pub restarts : List Restart

-- What the manager reads from the host while one operation runs.
pub record Host : Type 0 where
  -- /proc/net/dev; resident memory and processor use of a process; the bytes of a server's files.
  pub network : ℕ × ℕ
  pub rss : ℕ → ℕ
  pub cpu : ℕ → ℕ
  pub disk : Text → ℕ
  -- The processes that the scans of /proc find to belong to a server.
  pub belonging : Text → List ℕ
  -- `get_server_configuration`; none if there is no client, or it raises.
  pub panel : Text → Option Json
  -- Whether everything between the check of the configuration and the new process succeeds.
  pub boots : Text → Text → Json → Bool

-- process.poll() is None
abbrev pub is_alive : Manager → ℕ → Bool
is_alive m p = mem p m.alive

unfoldable pub without_all : List ℕ → List ℕ → List ℕ
unfolding Events.discard
without_all [] ps = ps
without_all (q ∷ qs) ps = without_all qs (Events.discard q ps)

-- bus.publish
unfoldable pub publish : Text → Event → List Payload → Manager → Manager
publish uuid event args m = record m { bus = Events.publish uuid event args m.bus }

-- activity_manager.record, where there is an activity manager.
unfoldable pub log_activity : Text → Text → Json → Manager → Manager
log_activity uuid event metadata m = record m {
  activity = elim m.activity [
    | none ↦ none
    | some a ↦ some (
        record_event
          (record {
            user = none;
            server = uuid;
            event = event;
            metadata = metadata;
            ip = lit "127.0.0.1";
            timestamp = m.clock;
          })
          a)
  ];
}

-- self.store.get(server_uuid)
abbrev pub server_of : Manager → Text → Option Server
server_of m uuid = Servers.get m.store uuid

abbrev pub state_of : Manager → Text → Option State
state_of m uuid = elim (server_of m uuid) [ none ↦ none | some r ↦ some r.state ]

-- `server.state if server else STATE_OFFLINE`
abbrev pub current_state : Manager → Text → State
current_state m uuid = elim (server_of m uuid) [ none ↦ Servers.offline | some r ↦ r.state ]

-- `is_running`
unfoldable pub is_running : Manager → Text → Bool
is_running m uuid = elim (Dict.lookup uuid m.processes) [ none ↦ false | some p ↦ is_alive m p ]

-- self._processes.pop(server_uuid, None) and self._started_at.pop(server_uuid, None)
unfoldable pub unregister : Text → Manager → Manager
unregister uuid m = record m {
  processes = Dict.erase uuid m.processes;
  started_at = Dict.erase uuid m.started_at;
}
