-- ===== src/Processes/Threads.antt =====
-- What the threads of wings/processes.py do to the state: `_watch` and `_auto_restart_worker`.
use pywings.Prelude.{
  ℕ, ◌-◌, ◌≤◌, ◌≡◌, ◌≢◌, ap, refl, true, false, not, ◌&&◌, ◌↔◌, rstrip_chars, length, length-append,
  none, some, List, [], ◌∷◌, ◌++◌, Text, lit, text_eq_refl, ltb, arith, Bool-cases, Option-cases,
  inl, inr, ◌⊎◌, if◌then◌else◌,
}
use pywings.Prelude.Dict
use pywings.Json.{Json}
use pywings.Events
use pywings.Events.{mem}
use pywings.Servers.{offline, starting, running, stopping, same_state}
use pywings.Numbers.{Whole, plus}
use pywings.Processes.State.{
  Manager, Host, is_alive, is_running, publish, state_of, current_state, server_of, unregister,
}
use pywings.Processes.Status.{set_server_state}
use pywings.Processes.Start.{start}
use pywings.Processes.Watch.{
  Regex, Plan, is_done, is_stop_line, is_newline, mark_running, mark_stopping, watch_line, close,
  is_crash, detects_crashes, last_crash_of, crashed, watch_exit, auto_restart,
}
use pywings.Processes.Consistent.{
  IsConsistent, set_server_state-IsConsistent, publish-IsConsistent, unregister-IsConsistent,
}
use pywings.Processes.Starting.{start-IsConsistent}
use pywings.Processes.Shutdown.{IsDown, is_running-unregister, offline-IsDown, publish-IsDown}

append_ne {ℓ} : {A : Type ℓ} (xs : List A) (x : A) → xs ++ (x ∷ []) ≢ xs
append_ne xs x e = omega (arith, ap length e, length-append xs (x ∷ []))

module _ (h : Host) (uuid : Text) where
  mark_running-IsConsistent :
      (re : Regex) (p : Plan) (line : Text) (m : Manager)
      → IsConsistent m
      → IsConsistent (mark_running h re p uuid line m)
  unfolding mark_running
  mark_running-IsConsistent re p line m c =
      elim (same_state (current_state m uuid) starting && is_done re p line)
        as (λ t. IsConsistent (
          if t
          then publish uuid Events.daemon_message
              (Events.plain (lit "[Wings Daemon]: Server marked as running.") ∷ [])
              (set_server_state h uuid running m)
          else m)) [
            | false ↦ c
            | true ↦
                publish-IsConsistent uuid _ _ _ (set_server_state-IsConsistent h uuid running m c)
          ]

  mark_stopping-IsConsistent :
      (p : Plan) (line : Text) (m : Manager)
      → IsConsistent m
      → IsConsistent (mark_stopping h p uuid line m)
  unfolding mark_stopping
  mark_stopping-IsConsistent p line m c =
      elim (is_stop_line p.stop line)
        as (λ t. IsConsistent (if t then set_server_state h uuid stopping m else m)) [
          | false ↦ c
          | true ↦ set_server_state-IsConsistent h uuid stopping m c
        ]

  pub watch_line-IsConsistent :
      (re : Regex) (p : Plan) (raw : Text) (m : Manager)
      → IsConsistent m
      → IsConsistent (watch_line h re p uuid raw m)
  watch_line-IsConsistent re p raw m c =
      let line = rstrip_chars is_newline raw in
      let told : Manager = publish uuid Events.console_output (Events.plain line ∷ []) m in
      unfold watch_line in
      mark_stopping-IsConsistent p line (mark_running h re p uuid line told)
        (mark_running-IsConsistent re p line told (publish-IsConsistent uuid _ _ m c))

  pub crashed-IsConsistent :
      (conf : Json) (code : Whole) (m : Manager)
      → IsConsistent m
      → IsConsistent (crashed uuid conf code m)
  unfolding crashed publish is_running
  crashed-IsConsistent conf code m c = record {
    known = c.known;
    living = c.living;
    watched = c.watched;
    timed = c.timed;
    owned = c.owned;
  }

  close-IsConsistent :
      (code : Whole) (m : Manager) → IsConsistent m → IsConsistent (close h uuid code m)
  close-IsConsistent code m c =
      unfold close in
      publish-IsConsistent uuid _ _ _ (
        set_server_state-IsConsistent h uuid offline (unregister uuid m)
          (unregister-IsConsistent uuid m c))

  close-IsDown : (code : Whole) (m : Manager) → IsDown uuid (close h uuid code m)
  close-IsDown code m =
      unfold close in
      publish-IsDown uuid _ _ _
        (offline-IsDown h uuid (unregister uuid m) (is_running-unregister uuid m))

  pub watch_exit-IsConsistent :
      (conf : Json) (code : Whole) (m : Manager)
      → IsConsistent m
      → IsConsistent (watch_exit h uuid conf code m)
  watch_exit-IsConsistent conf code m c =
      unfold watch_exit in
      elim (is_crash uuid conf code m)
        as (λ t.
          IsConsistent
            (if t then crashed uuid conf code (close h uuid code m) else close h uuid code m)) [
              | true ↦
                  crashed-IsConsistent conf code (close h uuid code m) (close-IsConsistent code m c)
              | false ↦ close-IsConsistent code m c
            ]

  pub auto_restart-IsConsistent :
      (conf : Json) (m : Manager) → IsConsistent m → IsConsistent (auto_restart h uuid conf m)
  auto_restart-IsConsistent conf m c = elim (Option-cases (server_of m uuid)) [
    | inl e ↦ unfold auto_restart in rw (e, auto_restart) c
    | inr (r, e) ↦
        unfold auto_restart in
        rw (e, auto_restart)
          (elim (same_state r.state offline && not r.is_suspended)
            as (λ t. IsConsistent (if t then start h uuid conf m else m)) [
              | true ↦ start-IsConsistent h uuid conf m (λ gone. ground arith) c
              | false ↦ c
            ])
  ]

  watch_exit-IsDown :
      (conf : Json) (code : Whole) (m : Manager) → IsDown uuid (watch_exit h uuid conf code m)
  watch_exit-IsDown conf code m =
      let d = close-IsDown code m in
      unfold watch_exit in
      elim (is_crash uuid conf code m)
        as (λ t.
          IsDown uuid
            (if t then crashed uuid conf code (close h uuid code m) else close h uuid code m)) [
              | true ↦
                  unfold crashed publish is_running in
                  record { idle = d.idle; offline_or_gone = d.offline_or_gone }
              | false ↦ d
            ]

  restarts-watch_exit :
      (conf : Json) (code : Whole) (m : Manager)
      → (watch_exit h uuid conf code m).restarts ≡ (
          if is_crash uuid conf code m && not (ltb (m.clock - last_crash_of m uuid) 60000)
          then m.restarts ++ ((record { server = uuid; configuration = conf }) ∷ [])
          else m.restarts)
  restarts-watch_exit conf code m =
      unfold watch_exit in
      elim (Bool-cases (is_crash uuid conf code m)) [
        | inl e ↦
            rw (e, watch_exit)
              (unfold crashed close publish set_server_state unregister in ground arith)
        | inr e ↦ rw (e, watch_exit) (unfold close publish set_server_state unregister in refl)
      ]

  is_crash_iff :
      (conf : Json) (code : Whole) (m : Manager)
      → (is_crash uuid conf code m ≡ true) ↔ (
          ((state_of m uuid ≡ some starting) ⊎ (state_of m uuid ≡ some running))
          × (code ≢ plus 0)
          × (detects_crashes conf ≡ true))
  unfolding is_crash same_state
  is_crash_iff conf code m = elim (Option-cases (server_of m uuid)) [
    | inl e ↦ ground arith
    | inr (r, e) ↦ ground arith
  ]

  -- A watcher that ends schedules a restart exactly when its server was marked as starting or running,
  -- its process ended with another code than 0, the configuration does not turn the crash detection
  -- off, and the last recorded crash is at least 60 seconds ago.
  pub watch_exit-restarts :
      (conf : Json) (code : Whole) (m : Manager)
      → ((watch_exit h uuid conf code m).restarts
          ≡ m.restarts ++ ((record { server = uuid; configuration = conf }) ∷ []))
        ↔ (((state_of m uuid ≡ some starting) ⊎ (state_of m uuid ≡ some running))
            × (code ≢ plus 0)
            × (detects_crashes conf ≡ true)
            × (60000 ≤ m.clock - last_crash_of m uuid))
  watch_exit-restarts conf code m = ground (
    arith,
    restarts-watch_exit conf code m,
    is_crash_iff conf code m,
    append_ne m.restarts (record { server = uuid; configuration = conf }),
  )

  -- A watcher forgets whichever process is registered when it ends: where that is a later process than
  -- its own, that process runs on, unregistered, and the server is shown offline.
  pub watch_exit-orphans :
      (conf : Json) (code : Whole) (m : Manager) (p : ℕ)
      → Dict.lookup uuid m.processes ≡ some p
      → is_alive m p ≡ true
      → IsDown uuid (watch_exit h uuid conf code m)
        × (is_alive (watch_exit h uuid conf code m) p ≡ true)
        × (Dict.lookup uuid (watch_exit h uuid conf code m).processes ≡ none)
  watch_exit-orphans conf code m p known alive = (
    watch_exit-IsDown conf code m,
    unfold watch_exit crashed close publish set_server_state unregister in ground arith,
    unfold watch_exit crashed close publish set_server_state unregister in
        ground (arith, text_eq_refl uuid, Dict.lookup-erase uuid uuid m.processes),
  )
