-- ===== src/Processes/Consistent.antt =====
-- The invariant of the process manager, and the primitive operations that keep it.
use pywings.Prelude.{
  ℕ, ◌<◌, ◌≡◌, Bool, true, false, ◌&&◌, ◌||◌, some, List, [], ◌∷◌, ◌++◌, Text, text_eq, ◌==◌, arith,
  Option-cases, inl, inr,
}
use pywings.Prelude.Dict
use pywings.Json.{Json}
use pywings.Events
use pywings.Events.{Event, Payload, mem}
use pywings.Events.Subscriptions.{mem-discard}
use pywings.Servers.{State}
use pywings.Processes.State.{
  Manager, Host, Watcher, is_alive, is_running, publish, log_activity, unregister, without_all,
}
use pywings.Processes.Status.{set_server_state}
use pywings.Processes.Start.{keep_configuration}

-- A thread watches the process for the server.
unfoldable pub is_watched : Text → ℕ → List Watcher → Bool
is_watched uuid p [] = false
is_watched uuid p (w ∷ ws) = text_eq w.server uuid && w.process == p || is_watched uuid p ws

pub is_watched-append :
    (uuid : Text) (p : ℕ) (ws : List Watcher) (w : Watcher)
    → is_watched uuid p (ws ++ (w ∷ []))
      ≡ (is_watched uuid p ws || text_eq w.server uuid && w.process == p)
unfolding is_watched
is_watched-append uuid p [] w = ground arith
is_watched-append uuid p (v ∷ ws) w = ground (arith, is_watched-append uuid p ws w)

pub record IsConsistent (m : Manager) : Type 0 where
  -- Process numbers in use have been handed out.
  pub known : (uuid : Text) (p : ℕ) → Dict.lookup uuid m.processes ≡ some p → p < m.fresh
  pub living : (p : ℕ) → is_alive m p ≡ true → p < m.fresh
  -- Every registered process has a thread that was started to watch it and has not taken it out yet.
  pub watched :
      (uuid : Text) (p : ℕ)
      → Dict.lookup uuid m.processes ≡ some p
      → is_watched uuid p m.watchers ≡ true
  -- A start time is kept for exactly the registered processes.
  pub timed : (uuid : Text) → Dict.has_key uuid m.started_at ≡ Dict.has_key uuid m.processes
  -- No process is registered for two servers.
  pub owned :
      (uuid other : Text) (p : ℕ)
      → Dict.lookup uuid m.processes ≡ some p
      → Dict.lookup other m.processes ≡ some p
      → uuid ≡ other

module _ (h : Host) (uuid : Text) where
  pub set_server_state-IsConsistent :
      (state : State) (m : Manager)
      → IsConsistent m
      → IsConsistent (set_server_state h uuid state m)
  set_server_state-IsConsistent state m c = record {
    known = unfold set_server_state in c.known;
    living = unfold set_server_state in c.living;
    watched = unfold set_server_state in c.watched;
    timed = unfold set_server_state in c.timed;
    owned = unfold set_server_state in c.owned;
  }

  pub keep_configuration-IsConsistent :
      (conf : Json) (m : Manager) → IsConsistent m → IsConsistent (keep_configuration uuid conf m)
  keep_configuration-IsConsistent conf m c = record {
    known = c.known;
    living = c.living;
    watched = c.watched;
    timed = c.timed;
    owned = c.owned;
  }

module _ (uuid : Text) where
  pub publish-IsConsistent :
      (event : Event) (args : List Payload) (m : Manager)
      → IsConsistent m
      → IsConsistent (publish uuid event args m)
  unfolding publish is_running
  publish-IsConsistent event args m c = record {
    known = c.known;
    living = c.living;
    watched = c.watched;
    timed = c.timed;
    owned = c.owned;
  }

  pub log_activity-IsConsistent :
      (event : Text) (metadata : Json) (m : Manager)
      → IsConsistent m
      → IsConsistent (log_activity uuid event metadata m)
  unfolding log_activity is_running
  log_activity-IsConsistent event metadata m c = record {
    known = c.known;
    living = c.living;
    watched = c.watched;
    timed = c.timed;
    owned = c.owned;
  }

  pub unregister-IsConsistent : (m : Manager) → IsConsistent m → IsConsistent (unregister uuid m)
  unfolding unregister is_running
  unregister-IsConsistent m c = record {
    known = λ j p e. ground (arith, Dict.lookup-erase uuid j m.processes, c.known j p);
    living = c.living;
    watched = λ j p e. ground (arith, Dict.lookup-erase uuid j m.processes, c.watched j p);
    timed = λ j. ground (
      arith,
      Dict.lookup-erase uuid j m.processes,
      Dict.lookup-erase uuid j m.started_at,
      c.timed j,
    );
    owned = λ j k p e f. ground (
      arith,
      Dict.lookup-erase uuid j m.processes,
      Dict.lookup-erase uuid k m.processes,
      c.owned j k p,
    );
  }

-- Processes only end.
abbrev pub IsFewer : List ℕ → List ℕ → Type 0
IsFewer ps qs = (p : ℕ) → mem p ps ≡ true → mem p qs ≡ true

pub discard-IsFewer : (q : ℕ) (ps : List ℕ) → IsFewer (Events.discard q ps) ps
discard-IsFewer q ps p h = ground (arith, mem-discard q p ps)

pub without_all-IsFewer : (qs ps : List ℕ) → IsFewer (without_all qs ps) ps
unfolding without_all
without_all-IsFewer [] ps p h = h
without_all-IsFewer (q ∷ qs) ps p h =
    discard-IsFewer q ps p (without_all-IsFewer qs (Events.discard q ps) p h)

pub is_running_fewer :
    (ps : List ℕ) (m : Manager) (j : Text)
    → IsFewer ps m.alive
    → is_running (record m { alive = ps }) j ≡ true
    → is_running m j ≡ true
unfolding is_running
is_running_fewer ps m j fewer runs = elim (Option-cases (Dict.lookup j m.processes)) [
  | inl e ↦ ground arith
  | inr (p, e) ↦ ground (arith, fewer p)
]

pub end-IsConsistent :
    (ps : List ℕ) (m : Manager)
    → IsFewer ps m.alive
    → IsConsistent m
    → IsConsistent (record m { alive = ps })
end-IsConsistent ps m fewer c = record {
  known = c.known;
  living = λ p a. c.living p (fewer p a);
  watched = c.watched;
  timed = c.timed;
  owned = c.owned;
}
