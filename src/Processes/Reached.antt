-- ===== src/Processes/Reached.antt =====
-- Every step keeps the manager consistent, and so does every run.
use pywings.Prelude.{
  ℕ, ◌+◌, ◌≡◌, ◌≢◌, refl, true, false, Option, none, some, List, [], ◌∷◌, ◌++◌, Text, text_eq_iff,
  arith, Bool-cases, Option-cases, inl, inr, if◌then◌else◌,
}
use pywings.Prelude.Dict
use pywings.Json.{Json, truthy}
use pywings.Result.{Result, ok, err}
use pywings.Events
use pywings.Events.{mem, empty_bus}
use pywings.Servers.{offline, stopping}
use pywings.Numbers.{Whole}
use pywings.Processes.State.{
  Manager, Host, Watcher, Restart, is_alive, is_running, publish, unregister,
}
use pywings.Processes.Status.{set_server_state}
use pywings.Processes.Stop.{
  stop_value, write, printed, write_stop, ask_to_stop, stop_registered, begin_stop, send_command,
}
use pywings.Processes.Watch.{watch_exit, crashed, close, is_crash}
use pywings.Processes.Consistent.{
  IsConsistent, is_watched, set_server_state-IsConsistent, publish-IsConsistent,
  unregister-IsConsistent, log_activity-IsConsistent, keep_configuration-IsConsistent,
  discard-IsFewer, end-IsConsistent,
}
use pywings.Processes.Starting.{start-IsConsistent}
use pywings.Processes.Shutdown.{end_stop-IsConsistent, kill-IsConsistent}
use pywings.Processes.Removed.{remove-IsConsistent, forget-IsConsistent}
use pywings.Processes.Boot.{booted-IsConsistent}
use pywings.Processes.Threads.{
  crashed-IsConsistent, watch_line-IsConsistent, watch_exit-IsConsistent, auto_restart-IsConsistent,
}
use pywings.Processes.Reach.{
  manager_of, drop_watcher, Step, starts, stop_begins, stop_ends, kills, removes, commands, lines,
  exits, restarts_again, ends, pops, takes_out, marks, says, logs, keeps, writes, boots, crashes,
  measures, forgets, ticks, Reach, here, next,
}

is_watched-drop :
    (uuid j : Text) (p q : ℕ) (ws : List Watcher)
    → uuid ≢ j
    → is_watched j q (drop_watcher uuid p ws) ≡ is_watched j q ws
unfolding is_watched drop_watcher
is_watched-drop uuid j p q [] other = refl
is_watched-drop uuid j p q (w ∷ ws) other =
    ground (arith, text_eq_iff w.server uuid, text_eq_iff w.server j, is_watched-drop uuid j p q ws)

-- The clock, the restart workers and the inputs of processes are not part of the invariant.
aside-IsConsistent :
    (m : Manager) (clock : ℕ) (inputs : List (ℕ × Events.Payload)) (restarts : List Restart)
    → IsConsistent m
    → IsConsistent (record m { clock = clock; inputs = inputs; restarts = restarts })
unfolding is_running
aside-IsConsistent m clock inputs restarts c = record {
  known = c.known;
  living = c.living;
  watched = c.watched;
  timed = c.timed;
  owned = c.owned;
}

write_stop-IsConsistent :
    (p : ℕ) (v : Result Json) (m : Manager)
    → IsConsistent m
    → IsConsistent (manager_of (write_stop p v m))
unfolding write_stop
write_stop-IsConsistent p (err e) m c = c
write_stop-IsConsistent p (ok v) m c =
    elim (truthy v) as (λ t. IsConsistent (if t then write p (printed v) m else m)) [
      | false ↦ c
      | true ↦ aside-IsConsistent m m.clock (m.inputs ++ ((p, printed v) ∷ [])) m.restarts c
    ]

stop_registered-IsConsistent :
    (h : Host) (uuid : Text) (conf : Json) (o : Option ℕ) (m : Manager)
    → Dict.lookup uuid m.processes ≡ o
    → IsConsistent m
    → IsConsistent (manager_of (stop_registered h uuid conf o m))
unfolding stop_registered
stop_registered-IsConsistent h uuid conf none m known c =
    set_server_state-IsConsistent h uuid offline m c
stop_registered-IsConsistent h uuid conf (some p) m known c = elim (Bool-cases (is_alive m p)) [
  | inl e ↦ rw e (
      unfold ask_to_stop in
      write_stop-IsConsistent p (stop_value conf) _
        (publish-IsConsistent uuid _ _ _ (set_server_state-IsConsistent h uuid stopping m c)))
  | inr e ↦ rw e (set_server_state-IsConsistent h uuid offline m c)
]

module _ (h : Host) (uuid : Text) (m : Manager) where
  processes-watch_exit :
      (conf : Json) (code : Whole)
      → (watch_exit h uuid conf code m).processes ≡ Dict.erase uuid m.processes
  unfolding watch_exit crashed close publish set_server_state unregister
  processes-watch_exit conf code =
      elim (is_crash uuid conf code m)
        as (λ t.
          (if t
            then crashed uuid conf code (close h uuid code m)
            else close h uuid code m).processes
          ≡ Dict.erase uuid m.processes) [ true ↦ refl | false ↦ refl ]

  -- The thread of a process ends with the process taken out of the registry.
  exits-IsConsistent :
      (conf : Json) (p : ℕ) (code : Whole)
      → IsConsistent m
      → IsConsistent
          (record (watch_exit h uuid conf code m) { watchers = drop_watcher uuid p m.watchers })
  unfolding is_running
  exits-IsConsistent conf p code c =
      let d = watch_exit-IsConsistent h uuid conf code m c in
      let gone = processes-watch_exit conf code in
      record {
        known = d.known;
        living = d.living;
        watched = λ j q e. ground (
          arith,
          gone,
          Dict.lookup-erase uuid j m.processes,
          text_eq_iff uuid j,
          c.watched j q,
          is_watched-drop uuid j p q m.watchers,
        );
        timed = d.timed;
        owned = d.owned;
      }

pops-IsConsistent :
    (uuid : Text) (p : ℕ) (m : Manager)
    → IsConsistent m
    → IsConsistent (record (unregister uuid m) { watchers = drop_watcher uuid p m.watchers })
pops-IsConsistent uuid p m c =
    let d = unregister-IsConsistent uuid m c in
    record {
      known = unfold unregister in d.known;
      living = unfold unregister in d.living;
      watched =
          unfold unregister in
          λ j q e. ground (
            arith,
            Dict.lookup-erase uuid j m.processes,
            text_eq_iff uuid j,
            c.watched j q,
            is_watched-drop uuid j p q m.watchers,
          );
      timed = unfold unregister in d.timed;
      owned = unfold unregister in d.owned;
    }

send_command-IsConsistent :
    (uuid line : Text) (m : Manager) → IsConsistent m → IsConsistent (send_command uuid line m).1
unfolding send_command
send_command-IsConsistent uuid line m c = elim (Option-cases (Dict.lookup uuid m.processes)) [
  | inl e ↦ rw (e, send_command) c
  | inr (p, e) ↦
      rw (e, send_command)
        (elim (Bool-cases (is_alive m p)) [
          | inl a ↦ rw a (
              aside-IsConsistent m m.clock (m.inputs ++ ((p, Events.plain line) ∷ [])) m.restarts c)
          | inr a ↦ rw a c
        ])
]

Step-IsConsistent : {m n : Manager} → Step m n → IsConsistent m → IsConsistent n
Step-IsConsistent {m} (starts h uuid conf there) c = start-IsConsistent h uuid conf m there c
Step-IsConsistent {m} (stop_begins h uuid conf) c =
    unfold begin_stop in
    stop_registered-IsConsistent h uuid conf (Dict.lookup uuid m.processes) m refl c
Step-IsConsistent {m} (stop_ends h uuid p) c = end_stop-IsConsistent h uuid p m c
Step-IsConsistent {m} (kills h uuid) c = kill-IsConsistent h uuid m c
Step-IsConsistent {m} (removes h uuid) c = remove-IsConsistent h uuid m c
Step-IsConsistent {m} (commands uuid line) c = send_command-IsConsistent uuid line m c
Step-IsConsistent {m} (lines h re plan uuid line p w) c =
    watch_line-IsConsistent h uuid re plan line m c
Step-IsConsistent {m} (exits h uuid conf p code w dead) c =
    exits-IsConsistent h uuid m conf p code c
Step-IsConsistent {m} (restarts_again h r before after e) c =
    auto_restart-IsConsistent h r.server r.configuration (record m { restarts = before ++ after })
      (aside-IsConsistent m m.clock m.inputs (before ++ after) c)
Step-IsConsistent {m} (ends p) c =
    end-IsConsistent (Events.discard p m.alive) m (discard-IsFewer p m.alive) c
Step-IsConsistent {m} (pops uuid p w dead) c = pops-IsConsistent uuid p m c
Step-IsConsistent {m} (takes_out uuid) c = unregister-IsConsistent uuid m c
Step-IsConsistent {m} (marks h uuid state) c = set_server_state-IsConsistent h uuid state m c
Step-IsConsistent {m} (says uuid event args) c = publish-IsConsistent uuid event args m c
Step-IsConsistent {m} (logs uuid event metadata) c =
    log_activity-IsConsistent uuid event metadata m c
Step-IsConsistent {m} (keeps h uuid conf) c = keep_configuration-IsConsistent h uuid conf m c
Step-IsConsistent {m} (writes p line) c =
    aside-IsConsistent m m.clock (m.inputs ++ ((p, line) ∷ [])) m.restarts c
Step-IsConsistent {m} (boots h uuid conf) c = booted-IsConsistent h uuid conf m c
Step-IsConsistent {m} (crashes h uuid conf code) c = crashed-IsConsistent h uuid conf code m c
Step-IsConsistent {m} (measures h uuid) c = record {
  known = c.known;
  living = c.living;
  watched = c.watched;
  timed = c.timed;
  owned = c.owned;
}
Step-IsConsistent {m} (forgets uuid) c = forget-IsConsistent uuid m c
Step-IsConsistent {m} (ticks n) c = aside-IsConsistent m (m.clock + n) m.inputs m.restarts c

-- From a consistent manager, whatever the API and the threads do in whatever order, whole methods or
-- their parts with those of other methods between them, and whatever states others set, the manager
-- stays consistent: a start time is kept for exactly the registered processes, each of them is
-- registered for one server only, and each has a thread that was started to watch it and has not taken
-- it out yet; and no process that runs or is registered has a number that a later one gets.
pub Reach-IsConsistent : {m n : Manager} → IsConsistent m → Reach m n → IsConsistent n
Reach-IsConsistent c here = c
Reach-IsConsistent c (next r s) = Step-IsConsistent s (Reach-IsConsistent c r)
