-- ===== src/Processes/Removed.antt =====
-- `remove`: the server's record and what the model keeps for it are gone, and the manager stays consistent.
use pywings.Prelude.{◌≡◌, ◌∙◌, ap, refl, none, [], ◌∷◌, Text, text_eq_refl, arith}
use pywings.Prelude.Dict
use pywings.Events
use pywings.Events.{mem, empty_bus}
use pywings.Servers
use pywings.Servers.{State, offline, stopping}
use pywings.Servers.Lookup.{get-remove, get-update_state}
use pywings.Processes.State.{Manager, Host, publish, server_of}
use pywings.Processes.Status.{set_server_state, kept_traffic}
use pywings.Processes.Stop.{kill, forget, remove}
use pywings.Processes.Consistent.{IsConsistent, set_server_state-IsConsistent}
use pywings.Processes.Shutdown.{kill-IsConsistent}

module _ (uuid : Text) (m : Manager) where
  server_of-forget : server_of (forget uuid m) uuid ≡ none
  unfolding forget
  server_of-forget = ground (arith, text_eq_refl uuid, get-remove uuid uuid m.store)

  pub forget-IsConsistent : IsConsistent m → IsConsistent (forget uuid m)
  forget-IsConsistent c = record {
    known =
        unfold forget in λ j p e. ground (arith, Dict.lookup-erase uuid j m.processes, c.known j p);
    living = unfold forget in c.living;
    watched =
        unfold forget in
        λ j p e. ground (arith, Dict.lookup-erase uuid j m.processes, c.watched j p);
    timed =
        unfold forget in
        λ j. ground (
          arith,
          Dict.lookup-erase uuid j m.processes,
          Dict.lookup-erase uuid j m.started_at,
          c.timed j,
        );
    owned =
        unfold forget in
        λ j k p e f. ground (
          arith,
          Dict.lookup-erase uuid j m.processes,
          Dict.lookup-erase uuid k m.processes,
          c.owned j k p,
        );
  }

kept_traffic-none :
    (h : Host) (uuid : Text) (m : Manager)
    → Dict.lookup uuid m.net_baseline ≡ none
    → kept_traffic h uuid m ≡ m.last_net
unfolding kept_traffic
kept_traffic-none h uuid m e = rw (e, kept_traffic) refl

module _ (h : Host) (uuid : Text) (state : State) (m : Manager) where
  last_net-unknown :
      Dict.lookup uuid m.net_baseline ≡ none
      → (set_server_state h uuid state m).last_net ≡ m.last_net
  unfolding set_server_state
  last_net-unknown e =
      let told =
        publish uuid Events.status (Events.plain (Servers.state_name state) ∷ [])
          (record m { store = (Servers.update_state uuid state m.store).1 }) in
      ground (arith, kept_traffic-none h uuid told (unfold publish in e))

  server_of-unknown :
      server_of m uuid ≡ none → server_of (set_server_state h uuid state m) uuid ≡ none
  unfolding set_server_state
  server_of-unknown e = ground (arith, text_eq_refl uuid, get-update_state uuid uuid m.store state)

module _ (h : Host) (uuid : Text) (m : Manager) where
  pub remove-IsConsistent : IsConsistent m → IsConsistent (remove h uuid m)
  unfolding remove
  remove-IsConsistent c =
      set_server_state-IsConsistent h uuid offline (forget uuid (kill h uuid m))
        (forget-IsConsistent uuid (kill h uuid m) (kill-IsConsistent h uuid m c))

  -- After `remove`, no record of the server, no process, no start time, no crash and no network counter
  -- is kept for it.
  pub remove-forgets :
      let r = remove h uuid m in
      (server_of r uuid ≡ none)
      × (Dict.lookup uuid r.processes ≡ none)
      × (Dict.lookup uuid r.started_at ≡ none)
      × (Dict.lookup uuid r.last_crash ≡ none)
      × (Dict.lookup uuid r.net_baseline ≡ none)
      × (Dict.lookup uuid r.last_net ≡ none)
  unfolding remove
  remove-forgets =
      let k = kill h uuid m in
      (
        server_of-unknown h uuid offline (forget uuid k) (server_of-forget uuid k),
        unfold set_server_state forget in Dict.lookup-erase_self uuid k.processes,
        unfold set_server_state forget in Dict.lookup-erase_self uuid k.started_at,
        unfold set_server_state forget in Dict.lookup-erase_self uuid k.last_crash,
        unfold set_server_state forget in Dict.lookup-erase_self uuid k.net_baseline,
        ap (Dict.lookup uuid) (
              last_net-unknown h uuid offline (forget uuid k)
                (unfold forget in Dict.lookup-erase_self uuid k.net_baseline))
            ∙ (unfold forget in Dict.lookup-erase_self uuid k.last_net),
      )
