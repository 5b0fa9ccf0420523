-- ===== src/Processes/Stopped.antt =====
-- What `stop`, `kill` and `remove` of wings/processes.py promise to their callers.
use pywings.Prelude.{
  ℕ, ◌≡◌, ◌≢◌, ◌∙◌, ap, sym, refl, true, false, Option, none, some, [], ◌∷◌, Text, lit, text_eq_iff,
  text_eq_refl, arith, Option-cases, inl, inr, if◌then◌else◌,
}
use mathlib.Core.Bool.{false≢true}
use pywings.Prelude.Dict
use pywings.Json.{Json, truthy}
use pywings.Result.{Result, Error, ok, err}
use pywings.Events
use pywings.Events.{mem}
use pywings.Servers.{offline, stopping}
use pywings.Processes.State.{Manager, Host, is_alive, is_running, publish, state_of}
use pywings.Processes.Status.{set_server_state}
use pywings.Processes.Stop.{
  Stopping, done, stop_value, write, printed, write_stop, stop_registered, finish_stop, ask_to_stop,
  stop, kill,
}
use pywings.Processes.Framing.{state_of-set_server_state, is_running-set_server_state}
use pywings.Processes.Shutdown.{
  IsDown, is_running-absent, is_running-registered, processes-kill, state_of-kill, is_alive-kill,
  offline-IsDown, end_stop-IsDown, is_alive-end_stop, kill-IsDown,
}

module _ (h : Host) (uuid : Text) where
  -- What `stop-halts` states, of the two parts of `stop`.
  abbrev Halts : (Manager → Manager) → Manager → Stopping → Type 0
  Halts others m s =
      (finish_stop h uuid others s).0 ≡ ok tt
      → IsDown uuid (finish_stop h uuid others s).1
        × ((p : ℕ)
            → Dict.lookup uuid m.processes ≡ some p
            → is_alive (finish_stop h uuid others s).1 p ≡ false)

  write_stop-Halts :
      (others : Manager → Manager) (m m' : Manager) (p : ℕ) (v : Result Json)
      → Dict.lookup uuid m.processes ≡ some p
      → Halts others m (write_stop p v m')
  unfolding write_stop finish_stop
  write_stop-Halts others m m' p (err e) known returned = cc
  write_stop-Halts others m m' p (ok v) known returned =
      let after : Manager = others (if truthy v then write p (printed v) m' else m') in
      (end_stop-IsDown h uuid p after, λ q e. ground (arith, is_alive-end_stop h uuid p after))

  stop_registered-Halts :
      (conf : Json) (others : Manager → Manager) (m : Manager) (o : Option ℕ)
      → Dict.lookup uuid m.processes ≡ o
      → Halts others m (stop_registered h uuid conf o m)
  unfolding stop_registered
  stop_registered-Halts conf others m none known = λ returned.
      unfold finish_stop in (offline-IsDown h uuid m (is_running-absent uuid m known), λ p e. cc)
  stop_registered-Halts conf others m (some q) known =
      (elim (is_alive m q)
          as (λ b.
            is_alive m q ≡ b
            → Halts others m (
                if b
                then ask_to_stop h uuid conf q m
                else done (set_server_state h uuid offline m))) [
                  | true ↦ λ runs.
                      unfold ask_to_stop in write_stop-Halts others m _ q (stop_value conf) known
                  | false ↦ λ ended returned.
                      unfold finish_stop in
                      (
                        offline-IsDown h uuid m (is_running-registered uuid m q known ∙ ended),
                        λ p e. unfold set_server_state in ground arith,
                      )
                ])
        refl

  -- A `stop` that returns has ended what it was asked to end, whatever the other threads did while it
  -- waited: `is_running` is false for the server, no state but offline is recorded for it, and the
  -- process that was registered for it before has ended.
  pub stop-halts :
      (conf : Json) (others : Manager → Manager) (m : Manager)
      → (stop h uuid conf others m).0 ≡ ok tt
      → IsDown uuid (stop h uuid conf others m).1
        × ((p : ℕ)
            → Dict.lookup uuid m.processes ≡ some p
            → is_alive (stop h uuid conf others m).1 p ≡ false)
  unfolding stop
  stop-halts conf others m = stop_registered-Halts conf others m (Dict.lookup uuid m.processes) refl

  -- The state in which `stop` reads the stop value.
  told : Manager → Manager
  told m =
      publish uuid Events.daemon_message
        (Events.plain (lit "[Wings Daemon]: Stopping server instance...") ∷ [])
        (set_server_state h uuid stopping m)

  stop-eq-err :
      (conf : Json) (others : Manager → Manager) (m : Manager) (e : Error) (p : ℕ)
      → Dict.lookup uuid m.processes ≡ some p
      → is_alive m p ≡ true
      → stop_value conf ≡ err e
      → stop h uuid conf others m ≡ (err e, told m)
  unfolding stop stop_registered ask_to_stop told
  stop-eq-err conf others m e p known runs bad =
      rw (known, stop) (rw (runs, stop_registered) (rw (bad, write_stop) refl))

  -- Where the stop value of the configuration cannot be read, `stop` of a running server raises, and
  -- leaves the server marked as stopping with its process running: nothing has told it to end.
  pub stop-raises :
      (conf : Json) (others : Manager → Manager) (m : Manager) (e : Error)
      → stop_value conf ≡ err e
      → is_running m uuid ≡ true
      → state_of m uuid ≢ none
      → ((stop h uuid conf others m).0 ≡ err e)
        × (state_of (stop h uuid conf others m).1 uuid ≡ some stopping)
        × (is_running (stop h uuid conf others m).1 uuid ≡ true)
        × ((stop h uuid conf others m).1.inputs ≡ m.inputs)
  stop-raises conf others m e bad runs there = elim (Option-cases (Dict.lookup uuid m.processes)) [
    | inl absent ↦ absurd (false≢true (sym (is_running-absent uuid m absent) ∙ runs))
    | inr (p, known) ↦
        rw
          (stop-eq-err conf others m e p known (sym (is_running-registered uuid m p known) ∙ runs)
            bad)
          (unfold told publish in
            (
              refl,
              ground (arith, text_eq_refl uuid, state_of-set_server_state h uuid m uuid stopping),
              unfold is_running in is_running-set_server_state h uuid m uuid stopping ∙ runs,
              unfold set_server_state in refl,
            ))
  ]

  -- After `kill`, `is_running` is false for the server and no process is registered for it, no state
  -- but offline is recorded for it, the process that was registered has ended, and the registered
  -- processes and the states of all other servers are as they were.
  pub kill-halts :
      (m : Manager)
      → IsDown uuid (kill h uuid m)
        × (Dict.lookup uuid (kill h uuid m).processes ≡ none)
        × ((p : ℕ) → Dict.lookup uuid m.processes ≡ some p → is_alive (kill h uuid m) p ≡ false)
        × ((j : Text)
            → uuid ≢ j
            → (Dict.lookup j (kill h uuid m).processes ≡ Dict.lookup j m.processes)
              × (state_of (kill h uuid m) j ≡ state_of m j))
  kill-halts m = (
    kill-IsDown h uuid m,
    ap (Dict.lookup uuid) (processes-kill h uuid m) ∙ Dict.lookup-erase_self uuid m.processes,
    is_alive-kill h uuid m,
    λ j other. (
      ground (
        arith,
        text_eq_iff uuid j,
        ap (Dict.lookup j) (processes-kill h uuid m),
        Dict.lookup-erase uuid j m.processes,
      ),
      state_of-kill h uuid m j other,
    ),
  )
