-- ===== src/Tests/Running.antt =====
-- Runs of the process manager.
use pywings.Prelude.{
  ℕ, ◌≡◌, ◌≢◌, refl, ◌⊎◌, ◌↔◌, ◌≤◌, ◌-◌, ◌++◌, true, false, none, some, [], ◌∷◌, Text, lit, text_eq,
  strip,
}
use pywings.Prelude.Dict
use pywings.Json.{Json, obj, str, int, field, end, Fields}
use pywings.Result.{ok, err, attribute_error}
use pywings.Events
use pywings.Servers.{Server, State, offline, starting, running, stopping, installing}
use pywings.Processes.Config.{int_is_negative, validate_configuration}
use pywings.Numbers.{plus}
use pywings.Processes.State.{Manager, Host, is_running, is_alive, state_of, server_of, unregister}
use pywings.Processes.Status.{set_server_state}
use pywings.Processes.Start.{start, booted}
use pywings.Processes.Stop.{stop, stop_value, ask_to_stop, kill, remove}
use pywings.Processes.Watch.{watch_exit, detects_crashes, last_crash_of}
use pywings.Processes.Consistent.{IsConsistent}
use pywings.Processes.Boot.{HasBooted, HasFailed}
use pywings.Processes.Starting.{start-outcome}
use pywings.Processes.Shutdown.{IsDown}
use pywings.Processes.Stopped.{stop-halts, stop-raises, kill-halts}
use pywings.Processes.Removed.{remove-forgets}
use pywings.Processes.Threads.{watch_exit-restarts, watch_exit-orphans}
use pywings.Processes.Reach.{here, next, starts, takes_out, boots, marks}
use pywings.Processes.Reached.{Reach-IsConsistent}

abbrev one : Text
one = lit "one"

abbrev fields : Fields
fields =
    field (lit "container") (obj (field (lit "image") (str (lit " debian ")) end))
      (field (lit "limits") (obj (field (lit "memory") (int 512) end)) end)

abbrev conf : Json
conf = obj fields

abbrev host : Host
host = record {
  network = (100, 50);
  rss = λ p. 4096;
  cpu = λ p. 2;
  disk = λ uuid. 1000;
  belonging = λ uuid. [];
  panel = λ uuid. none;
  boots = λ uuid image c. true;
}

abbrev server : State → Server
server s = record { uuid = one; configuration = conf; state = s; is_suspended = false }

-- One server and no process.
abbrev idle : State → Manager
idle s = record {
  store = record { servers = (one, server s) ∷ []; file = none };
  bus = Events.empty_bus;
  activity = none;
  processes = [];
  started_at = [];
  last_crash = [];
  net_baseline = [];
  last_net = [];
  alive = [];
  fresh = 0;
  clock = 100000;
  inputs = [];
  watchers = [];
  restarts = [];
}

-- The server with process 0.
abbrev busy : Manager
busy = record (idle running) {
  processes = (one, 0) ∷ [];
  started_at = (one, 70000) ∷ [];
  alive = 0 ∷ [];
  fresh = 1;
  watchers = (record { server = one; process = 0; configuration = conf }) ∷ [];
}

idle-IsConsistent : IsConsistent (idle offline)
unfolding Dict.lookup is_running Events.mem
idle-IsConsistent = record {
  known = λ uuid p e. cc;
  living = λ p e. cc;
  watched = λ uuid p e. cc;
  timed = λ uuid. refl;
  owned = λ uuid other p e f. cc;
}

state_of-idle : (s : State) → state_of (idle s) one ≡ some s
unfolding Dict.lookup text_eq
state_of-idle s = refl

known-idle : state_of (idle offline) one ≢ none
known-idle e = let f = state_of-idle offline in cc

not_installing : state_of (idle offline) one ≢ some installing
not_installing e = let f = state_of-idle offline in cc

is_running-idle : is_running (idle offline) one ≡ false
unfolding is_running Dict.lookup
is_running-idle = refl

is_running-busy : is_running busy one ≡ true
unfolding is_running Dict.lookup text_eq Events.mem
is_running-busy = refl

state_of-busy : state_of busy one ≡ some running
unfolding Dict.lookup text_eq
state_of-busy = refl

known-busy : state_of busy one ≢ none
known-busy e = let f = state_of-busy in cc

registered-busy : Dict.lookup one busy.processes ≡ some 0
unfolding Dict.lookup text_eq
registered-busy = refl

alive-busy : is_alive busy 0 ≡ true
unfolding Events.mem
alive-busy = refl

abbrev started : Manager
started = start host one conf (idle offline)

-- The first part of a `kill`, a boot, and then the second part of that `kill`.
Reach-IsConsistent_example :
    IsConsistent (set_server_state host one offline (booted host one conf (unregister one started)))
Reach-IsConsistent_example = Reach-IsConsistent {m = idle offline} idle-IsConsistent (
    next
      (next (next (next here (starts host one conf known-idle)) (takes_out one))
        (boots host one conf))
      (marks host one offline))

start-outcome_example : HasBooted one started ⊎ HasFailed one started
start-outcome_example =
    start-outcome host one conf (idle offline) idle-IsConsistent known-idle not_installing
      is_running-idle

-- The process ends while `stop` waits.
abbrev ending : Manager → Manager
ending m = record m { alive = Events.discard 0 m.alive }

stop-returns : (stop host one conf ending busy).0 ≡ ok tt
unfolding stop Dict.lookup text_eq Events.mem ask_to_stop stop_value
stop-returns = refl

stop-halts_example :
    IsDown one (stop host one conf ending busy).1
    × ((p : ℕ)
        → Dict.lookup one busy.processes ≡ some p
        → is_alive (stop host one conf ending busy).1 p ≡ false)
stop-halts_example = stop-halts host one conf ending busy stop-returns

-- A configuration whose `process_configuration` is a text.
abbrev broken : Json
broken = obj (field (lit "process_configuration") (str (lit "java")) end)

stop_value-broken : stop_value broken ≡ err attribute_error
unfolding stop_value text_eq
stop_value-broken = refl

stop-raises_example :
    ((stop host one broken ending busy).0 ≡ err attribute_error)
    × (state_of (stop host one broken ending busy).1 one ≡ some stopping)
    × (is_running (stop host one broken ending busy).1 one ≡ true)
    × ((stop host one broken ending busy).1.inputs ≡ [])
stop-raises_example =
    stop-raises host one broken ending busy attribute_error stop_value-broken is_running-busy
      known-busy

kill-halts_example :
    IsDown one (kill host one busy)
    × (Dict.lookup one (kill host one busy).processes ≡ none)
    × ((p : ℕ) → Dict.lookup one busy.processes ≡ some p → is_alive (kill host one busy) p ≡ false)
    × ((j : Text)
        → one ≢ j
        → (Dict.lookup j (kill host one busy).processes ≡ Dict.lookup j busy.processes)
          × (state_of (kill host one busy) j ≡ state_of busy j))
kill-halts_example = kill-halts host one busy

remove-forgets_example :
    (server_of (remove host one busy) one ≡ none)
    × (Dict.lookup one (remove host one busy).processes ≡ none)
    × (Dict.lookup one (remove host one busy).started_at ≡ none)
    × (Dict.lookup one (remove host one busy).last_crash ≡ none)
    × (Dict.lookup one (remove host one busy).net_baseline ≡ none)
    × (Dict.lookup one (remove host one busy).last_net ≡ none)
remove-forgets_example = remove-forgets host one busy

watch_exit-restarts_example :
    ((watch_exit host one conf (plus 1) busy).restarts
      ≡ [] ++ ((record { server = one; configuration = conf }) ∷ []))
    ↔ (((state_of busy one ≡ some starting) ⊎ (state_of busy one ≡ some running))
        × (plus 1 ≢ plus 0)
        × (detects_crashes conf ≡ true)
        × (60000 ≤ 100000 - last_crash_of busy one))
watch_exit-restarts_example = watch_exit-restarts host one conf (plus 1) busy

watch_exit-orphans_example :
    IsDown one (watch_exit host one conf (plus 1) busy)
    × (is_alive (watch_exit host one conf (plus 1) busy) 0 ≡ true)
    × (Dict.lookup one (watch_exit host one conf (plus 1) busy).processes ≡ none)
watch_exit-orphans_example =
    watch_exit-orphans host one conf (plus 1) busy 0 registered-busy alive-busy

accepted : validate_configuration conf ≡ ok (lit "debian")
unfolding validate_configuration text_eq strip int_is_negative
accepted = refl
