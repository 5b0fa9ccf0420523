-- ===== src/Processes/Status.antt =====
-- wings/processes.py: `stats` and `set_server_state`.
use pywings.Prelude.{
  ℕ, ◌+◌, ◌-◌, ◌*◌, ◌==◌, not, ◌&&◌, Bool, true, Option, none, some, [], ◌∷◌, Text, lit,
  if◌then◌else◌,
}
use pywings.Prelude.Dict
use pywings.Prelude.Dict.{Dict}
use pywings.Json.{Json, bool, int, neg, str, obj, Fields, end, field, get_or_null, truthy}
use pywings.Numbers.{plus, minus, int_text}
use pywings.Result.{ok, err}
use pywings.Events.{status, stats, plain, dumped}
use pywings.Servers
use pywings.Servers.{Server, Store, State, offline, running, state_name, same_state}
use pywings.Processes.Config.{limits_of}
use pywings.Processes.State.{
  Manager, Host, is_alive, is_running, publish, server_of, state_of, current_state,
}

-- int(v) * 1024 * 1024 of `limits.get("memory", 0) or 0`, and 0 where int raises.
unfoldable pub megabytes : Json → Json
unfolding int_text
megabytes (bool true) = int 1048576
megabytes (int n) = int (n * 1048576)
megabytes (neg n) = neg (n * 1048576 + 1048575)
megabytes (str s) = elim (int_text s) [
  | none ↦ int 0
  | some (plus n) ↦ int (n * 1048576)
  | some (minus n) ↦ neg (n * 1048576 + 1048575)
]
megabytes v = int 0

unfoldable pub memory_limit : Fields → Json
unfolding megabytes
memory_limit limits =
    let v = get_or_null (lit "memory") limits in if truthy v then megabytes v else int 0

-- `stats`, and the state that it leaves: the traffic of the last reading is kept. A configuration
-- whose limits cannot be read counts as one without limits.
unfoldable pub report_limit : Option Server → Json
unfolding memory_limit
report_limit none = int 0
report_limit (some r) = elim r.configuration [
  | obj conf ↦ elim (limits_of conf) [ ok limits ↦ memory_limit limits | err e ↦ int 0 ]
  | _ ↦ int 0
]

-- max(0, now - base) of both counters, where a process runs that has a baseline.
unfoldable pub traffic : Host → Text → Manager → ℕ × ℕ
traffic h uuid m =
    let known : ℕ × ℕ = elim (Dict.lookup uuid m.last_net) [ none ↦ (0, 0) | some n ↦ n ] in
    elim (Dict.lookup uuid m.net_baseline) [
      | none ↦ known
      | some (rx, tx) ↦ if is_running m uuid then (h.network.0 - rx, h.network.1 - tx) else known
    ]

-- `_last_net` after `stats`.
unfoldable pub kept_traffic : Host → Text → Manager → Dict (ℕ × ℕ)
unfolding traffic
kept_traffic h uuid m = elim (Dict.lookup uuid m.net_baseline) [
  | none ↦ m.last_net
  | some base ↦
      if is_running m uuid then Dict.insert uuid (traffic h uuid m) m.last_net else m.last_net
]

-- The fields in their order.
abbrev report : Json → ℕ → ℕ → ℕ × ℕ → ℕ → State → ℕ → Json
report limit memory cpu (rx, tx) uptime state disk = obj (
    field (lit "memory_bytes") (int memory) (
      field (lit "memory_limit_bytes") limit (
        field (lit "cpu_absolute") (int cpu) (
          field (lit "network")
            (obj (field (lit "rx_bytes") (int rx) (field (lit "tx_bytes") (int tx) end)))
            (field (lit "uptime") (int uptime) (
              field (lit "state") (str (state_name state))
                (field (lit "disk_bytes") (int disk) end)))))))

-- int((now - (started_at or now)) * 1000), in milliseconds already.
abbrev uptime : Text → Manager → ℕ
uptime uuid m = elim (Dict.lookup uuid m.started_at) [
  | none ↦ 0
  | some t ↦ if t == 0 then 0 else m.clock - t
]

-- `current_state if current_state != STATE_RUNNING else STATE_OFFLINE`
abbrev shown_idle : State → State
shown_idle running = offline
shown_idle state = state

unfoldable pub stats_of : Host → Text → Manager → Json
unfolding traffic report_limit
stats_of h uuid m =
    let limit = report_limit (server_of m uuid) in
    let state = current_state m uuid in
    elim (Dict.lookup uuid m.processes) [
      | none ↦ report limit 0 0 (traffic h uuid m) 0 (shown_idle state) (h.disk uuid)
      | some p ↦
          if is_alive m p
          then report limit (h.rss p) (h.cpu p) (traffic h uuid m) (uptime uuid m) state
              (h.disk uuid)
          else report limit 0 0 (traffic h uuid m) 0 (shown_idle state) (h.disk uuid)
    ]

-- prev_state != state, where there may be no previous state.
unfoldable pub is_change : Option State → State → Bool
is_change none state = true
is_change (some prev) state = not (same_state prev state)

-- A new state, told to everybody who listens; a server that goes offline tells its last readings too.
unfoldable pub set_server_state : Host → Text → State → Manager → Manager
unfolding kept_traffic publish is_change
set_server_state h uuid state m =
    let changed = is_change (state_of m uuid) state in
    let m' : Manager = record m { store = (Servers.update_state uuid state m.store).1 } in
    let told = publish uuid status (plain (state_name state) ∷ []) m' in
    record m' {
      bus =
          (if changed
            then (if same_state state offline
                then (publish uuid stats (dumped (stats_of h uuid told) ∷ []) told).bus
                else told.bus)
            else m'.bus);
      last_net =
          if changed && same_state state offline then kept_traffic h uuid told else m.last_net;
    }
