-- ===== src/Processes/Starting.antt =====
-- What `start` of wings/processes.py leaves behind.
use pywings.Prelude.{
  ◌≡◌, ◌≢◌, true, false, ◌||◌, none, some, [], ◌∷◌, Text, lit, text_eq_refl, arith, Bool-cases,
  Option-cases, inl, inr, ◌⊎◌, if◌then◌else◌,
}
use pywings.Json.{Json}
use pywings.Events
use pywings.Events.{mem}
use pywings.Servers.{offline, starting, running, same_state, installing}
use pywings.Processes.State.{Manager, Host, is_running, publish, state_of, current_state}
use pywings.Processes.Status.{set_server_state}
use pywings.Processes.Start.{usable, refresh, cleanup, start_locked, recover, start}
use pywings.Processes.Framing.{
  current_state_ne, state_of-set_server_state, state_of-keep_configuration,
  is_running-set_server_state, is_running-keep_configuration,
}
use pywings.Processes.Boot.{
  IsBooting, HasBooted, HasFailed, cleanup-IsBooting, complete-IsBooting, launch-IsConsistent,
  launch-outcome,
}
use pywings.Processes.Consistent.{
  IsConsistent, set_server_state-IsConsistent, keep_configuration-IsConsistent,
  publish-IsConsistent,
}

module _ (h : Host) (uuid : Text) where
  -- The state in which `_start_locked` looks at the configuration.
  marked : Manager → Manager
  marked m = cleanup h uuid (
      publish uuid Events.daemon_message
        (Events.plain (lit "[Wings Daemon]: Preparing server environment for boot...") ∷ [])
        (set_server_state h uuid starting m))

  marked-IsBooting :
      (m : Manager)
      → state_of m uuid ≢ none
      → is_running m uuid ≡ false
      → IsConsistent m
      → IsBooting uuid (marked m)
  unfolding marked
  marked-IsBooting m there idle c = cleanup-IsBooting h uuid _ (record {
    consistent =
        publish-IsConsistent uuid _ _ _ (set_server_state-IsConsistent h uuid starting m c);
    marked =
        unfold publish in
        ground (arith, text_eq_refl uuid, state_of-set_server_state h uuid m uuid starting);
    idle =
        unfold publish is_running in
        ground (arith, is_running-set_server_state h uuid m uuid starting);
  })

  start_locked-IsConsistent :
      (conf : Json) (m : Manager)
      → state_of m uuid ≢ none
      → is_running m uuid ≡ false
      → IsConsistent m
      → IsConsistent (start_locked h uuid conf m)
  unfolding start_locked marked
  start_locked-IsConsistent conf m there idle c =
      launch-IsConsistent h uuid _
        (complete-IsBooting h uuid conf (marked m) (marked-IsBooting m there idle c))

  start_locked-outcome :
      (conf : Json) (m : Manager)
      → state_of m uuid ≢ none
      → is_running m uuid ≡ false
      → IsConsistent m
      → HasBooted uuid (start_locked h uuid conf m) ⊎ HasFailed uuid (start_locked h uuid conf m)
  unfolding start_locked marked
  start_locked-outcome conf m there idle c =
      launch-outcome h uuid _
        (complete-IsBooting h uuid conf (marked m) (marked-IsBooting m there idle c))

  -- Before that: the server is there and does not run.
  record IsReady (m : Manager) : Type 0 where
    consistent : IsConsistent m
    there : state_of m uuid ≢ none
    idle : is_running m uuid ≡ false

  recover-IsReady : (m : Manager) → IsReady m → IsReady (recover h uuid m)
  unfolding recover
  recover-IsReady m r =
      elim (same_state (current_state m uuid) starting || same_state (current_state m uuid) running)
        as (λ t. IsReady (if t then set_server_state h uuid offline m else m)) [
          | false ↦ r
          | true ↦ record {
            consistent = set_server_state-IsConsistent h uuid offline m r.consistent;
            there =
                λ gone. ground (arith, r.there, state_of-set_server_state h uuid m uuid offline);
            idle = ground (arith, is_running-set_server_state h uuid m uuid offline);
          }
        ]

  refresh-IsReady : (conf : Json) (m : Manager) → IsReady m → IsReady (refresh h uuid conf m).1
  unfolding refresh
  refresh-IsReady conf m r = elim (Option-cases (usable (h.panel uuid))) [
    | inl e ↦ rw (e, refresh) r
    | inr (fresh, e) ↦
        rw (e, refresh)
          (record {
            consistent = keep_configuration-IsConsistent h uuid fresh m r.consistent;
            there =
                λ gone. ground (arith, r.there, state_of-keep_configuration h uuid m uuid fresh);
            idle = ground (arith, is_running-keep_configuration h uuid m uuid fresh);
          })
  ]

  -- The state in which `start` calls `_start_locked`.
  ready : Json → Manager → Manager
  ready conf m = (refresh h uuid conf (recover h uuid m)).1

  ready-IsReady : (conf : Json) (m : Manager) → IsReady m → IsReady (ready conf m)
  unfolding ready
  ready-IsReady conf m r = refresh-IsReady conf (recover h uuid m) (recover-IsReady m r)

  -- `start` of a server that the registry knows keeps the invariant, whatever the host answers.
  pub start-IsConsistent :
      (conf : Json) (m : Manager)
      → state_of m uuid ≢ none
      → IsConsistent m
      → IsConsistent (start h uuid conf m)
  unfolding start ready
  start-IsConsistent conf m there c =
      elim (Bool-cases (same_state (current_state m uuid) installing)) [
        | inl e ↦ rw e (publish-IsConsistent uuid _ _ m c)
        | inr e ↦ rw e (elim (Bool-cases (is_running m uuid)) [
          | inl runs ↦ rw runs c
          | inr idle ↦ rw idle (
              let r =
                ready-IsReady conf m (record { consistent = c; there = there; idle = idle }) in
              start_locked-IsConsistent _ (ready conf m) r.there r.idle r.consistent)
        ])
      ]

  -- A `start`, in a consistent manager, of a known server that neither runs nor is being installed has
  -- one of two outcomes: the server is marked as starting and a process of it runs, or it is offline
  -- and none runs.
  pub start-outcome :
      (conf : Json) (m : Manager)
      → IsConsistent m
      → state_of m uuid ≢ none
      → state_of m uuid ≢ some installing
      → is_running m uuid ≡ false
      → HasBooted uuid (start h uuid conf m) ⊎ HasFailed uuid (start h uuid conf m)
  unfolding start ready
  start-outcome conf m c there free idle =
      rw (current_state_ne h uuid m uuid installing free (λ e. cc), idle)
        (let r = ready-IsReady conf m (record { consistent = c; there = there; idle = idle }) in
          start_locked-outcome _ (ready conf m) r.there r.idle r.consistent)
