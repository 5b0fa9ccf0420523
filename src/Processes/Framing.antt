-- ===== src/Processes/Framing.antt =====
-- What the primitive operations do to the states of the servers.
use pywings.Prelude.{◌≡◌, ◌≢◌, refl, false, none, some, Text, text_eq, arith, if◌then◌else◌}
use pywings.Json.{Json}
use pywings.Servers.{State, offline, same_state}
use pywings.Servers.Lookup.{get-update_state, get-update_configuration}
use pywings.Processes.State.{Manager, Host, is_running, state_of, current_state}
use pywings.Processes.Status.{set_server_state}
use pywings.Processes.Start.{keep_configuration}

module _ (h : Host) (uuid : Text) (m : Manager) (j : Text) where
  pub state_of-set_server_state :
      (state : State)
      → state_of (set_server_state h uuid state m) j ≡ (
          if text_eq uuid j
          then (elim (state_of m j) [ none ↦ none | some s ↦ some state ])
          else state_of m j)
  unfolding set_server_state
  state_of-set_server_state state = ground (arith, get-update_state uuid j m.store state)

  pub state_of-keep_configuration :
      (conf : Json)
      → state_of (keep_configuration uuid conf m) j ≡ (
          if text_eq uuid j
          then (elim (state_of m j) [ none ↦ some offline | some s ↦ some s ])
          else state_of m j)
  state_of-keep_configuration conf = ground (arith, get-update_configuration uuid j m.store conf)

  pub is_running-set_server_state :
      (state : State) → is_running (set_server_state h uuid state m) j ≡ is_running m j
  unfolding set_server_state is_running
  is_running-set_server_state state = refl

  pub is_running-keep_configuration :
      (conf : Json) → is_running (keep_configuration uuid conf m) j ≡ is_running m j
  unfolding is_running
  is_running-keep_configuration conf = refl

  pub current_state_ne :
      (state : State)
      → state_of m j ≢ some state
      → (state ≢ offline)
      → same_state (current_state m j) state ≡ false
  unfolding same_state
  current_state_ne state differs known = ground arith
