-- ===== src/Processes/Shutdown.antt =====
-- What `stop`, `kill` and `remove` of wings/processes.py leave behind.
use pywings.Prelude.{
  ℕ, ◌≡◌, ◌≢◌, ◌∙◌, ap, refl, false, Option, none, some, List, Text, lit, text_eq_iff, text_eq_refl,
  arith,
}
use pywings.Prelude.Dict
use pywings.Json
use pywings.Json.{Json}
use pywings.Events
use pywings.Events.{mem}
use pywings.Events.Subscriptions.{mem-discard}
use pywings.Servers
use pywings.Servers.{State, offline, starting, stopping}
use pywings.Processes.State.{
  Manager, Host, is_alive, is_running, publish, log_activity, state_of, unregister,
}
use pywings.Processes.Status.{set_server_state}
use pywings.Processes.Stop.{kill_process, end_stop, kill_all, kill}
use pywings.Processes.Framing.{state_of-set_server_state, is_running-set_server_state}
use pywings.Processes.Consistent.{
  IsConsistent, set_server_state-IsConsistent, publish-IsConsistent, log_activity-IsConsistent,
  unregister-IsConsistent, discard-IsFewer, without_all-IsFewer, end-IsConsistent,
}

-- No process of the server runs, and no state but offline is recorded for it.
pub record IsDown (uuid : Text) (m : Manager) : Type 0 where
  pub idle : is_running m uuid ≡ false
  pub offline_or_gone : (s : State) → state_of m uuid ≡ some s → s ≡ offline

module _ (uuid : Text) where
  pub is_running-absent :
      (m : Manager) → Dict.lookup uuid m.processes ≡ none → is_running m uuid ≡ false
  unfolding is_running
  is_running-absent m e = rw (e, is_running)

  pub is_running-registered :
      (m : Manager) (p : ℕ)
      → Dict.lookup uuid m.processes ≡ some p
      → is_running m uuid ≡ is_alive m p
  unfolding is_running
  is_running-registered m p e = rw (e, is_running)

  pub is_running-unregister : (m : Manager) → is_running (unregister uuid m) uuid ≡ false
  is_running-unregister m =
      is_running-absent (unregister uuid m)
        (unfold unregister in Dict.lookup-erase_self uuid m.processes)

  pub publish-IsDown :
      (event : Events.Event) (args : List Events.Payload) (m : Manager)
      → IsDown uuid m
      → IsDown uuid (publish uuid event args m)
  unfolding publish is_running
  publish-IsDown event args m d = record { idle = d.idle; offline_or_gone = d.offline_or_gone }

  log_activity-IsDown :
      (event : Text) (metadata : Json) (m : Manager)
      → IsDown uuid m
      → IsDown uuid (log_activity uuid event metadata m)
  unfolding log_activity is_running
  log_activity-IsDown event metadata m d = record {
    idle = d.idle;
    offline_or_gone = d.offline_or_gone;
  }

module _ (h : Host) (uuid : Text) where
  pub offline-IsDown :
      (m : Manager) → is_running m uuid ≡ false → IsDown uuid (set_server_state h uuid offline m)
  offline-IsDown m idle = record {
    idle = ground (arith, is_running-set_server_state h uuid m uuid offline);
    offline_or_gone =
        λ s e. ground (arith, text_eq_refl uuid, state_of-set_server_state h uuid m uuid offline);
  }

  pub end_stop-IsConsistent :
      (p : ℕ) (m : Manager) → IsConsistent m → IsConsistent (end_stop h uuid p m)
  unfolding end_stop
  end_stop-IsConsistent p m c = log_activity-IsConsistent uuid _ _ _ (
      set_server_state-IsConsistent h uuid offline _ (
        unregister-IsConsistent uuid (kill_process p m)
          (end-IsConsistent _ m (discard-IsFewer p m.alive) c)))

  pub end_stop-IsDown : (p : ℕ) (m : Manager) → IsDown uuid (end_stop h uuid p m)
  unfolding end_stop
  end_stop-IsDown p m =
      log_activity-IsDown uuid _ _ _
        (offline-IsDown _ (is_running-unregister uuid (kill_process p m)))

  pub is_alive-end_stop : (p : ℕ) (m : Manager) → is_alive (end_stop h uuid p m) p ≡ false
  unfolding end_stop log_activity set_server_state unregister
  is_alive-end_stop p m = ground (arith, mem-discard p p m.alive)

  -- The state behind the `kill_all` of `kill`.
  unfoldable pub killed : Manager → Manager
  killed m =
      kill_all h uuid (Dict.lookup uuid m.processes)
        (log_activity uuid (lit "server:power.kill") (Json.obj Json.end) (unregister uuid m))

  kill_all-IsConsistent :
      (o : Option ℕ) (m : Manager) → IsConsistent m → IsConsistent (kill_all h uuid o m)
  unfolding kill_all
  kill_all-IsConsistent none m c =
      end-IsConsistent _ m (without_all-IsFewer (h.belonging uuid) m.alive) c
  kill_all-IsConsistent (some p) m c =
      end-IsConsistent _ m
        (λ q a.
          discard-IsFewer p m.alive q
            (without_all-IsFewer (h.belonging uuid) (Events.discard p m.alive) q a))
        c

  pub processes-kill_all :
      (o : Option ℕ) (m : Manager) → (kill_all h uuid o m).processes ≡ m.processes
  unfolding kill_all
  processes-kill_all none m = refl
  processes-kill_all (some p) m = refl

  pub store-kill_all : (o : Option ℕ) (m : Manager) → (kill_all h uuid o m).store ≡ m.store
  unfolding kill_all
  store-kill_all none m = refl
  store-kill_all (some p) m = refl

  store-killed : (m : Manager) → (killed m).store ≡ m.store
  unfolding killed log_activity unregister
  store-killed m = store-kill_all (Dict.lookup uuid m.processes) _

  pub killed-idle : (m : Manager) → is_running (killed m) uuid ≡ false
  unfolding killed
  killed-idle m = is_running-absent uuid _ (
      rw processes-kill_all
        (unfold log_activity unregister in Dict.lookup-erase_self uuid m.processes))

  pub kill-IsConsistent : (m : Manager) → IsConsistent m → IsConsistent (kill h uuid m)
  unfolding kill killed
  kill-IsConsistent m c = publish-IsConsistent uuid _ _ _ (
      publish-IsConsistent uuid _ _ _ (
        set_server_state-IsConsistent h uuid offline (killed m) (
          kill_all-IsConsistent _ _
            (log_activity-IsConsistent uuid _ _ _ (unregister-IsConsistent uuid m c)))))

  pub kill-IsDown : (m : Manager) → IsDown uuid (kill h uuid m)
  unfolding kill killed
  kill-IsDown m =
      publish-IsDown uuid _ _ _
        (publish-IsDown uuid _ _ _ (offline-IsDown (killed m) (killed-idle m)))

  pub processes-kill : (m : Manager) → (kill h uuid m).processes ≡ Dict.erase uuid m.processes
  unfolding kill publish set_server_state
  processes-kill m =
      processes-kill_all (Dict.lookup uuid m.processes) _ ∙ unfold log_activity unregister in refl

  pub state_of-kill :
      (m : Manager) (j : Text) → uuid ≢ j → state_of (kill h uuid m) j ≡ state_of m j
  unfolding kill publish killed
  state_of-kill m j other = ground (
    arith,
    text_eq_iff uuid j,
    state_of-set_server_state h uuid (killed m) j offline,
    ap (λ (s : Servers.Store). Servers.get s j) (store-killed m),
  )

  pub is_alive-kill :
      (m : Manager) (p : ℕ)
      → Dict.lookup uuid m.processes ≡ some p
      → is_alive (kill h uuid m) p ≡ false
  unfolding kill publish set_server_state
  is_alive-kill m p known = rw known (
      unfold kill_all log_activity unregister in
      ground (
        arith,
        mem-discard p p m.alive,
        without_all-IsFewer (h.belonging uuid) (Events.discard p m.alive) p,
      ))
