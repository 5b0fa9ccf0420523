-- ===== src/Processes/Boot.antt =====
-- A boot under way, from the mark `starting` to its outcome (`_start_locked` of wings/processes.py).
use pywings.Prelude.{
  ◌≡◌, refl, Bool, true, false, Option, none, some, Text, text_eq_iff, text_eq_refl, arith,
  Option-cases, inl, inr, ◌⊎◌, if◌then◌else◌,
}
use pywings.Prelude.Dict
use pywings.Json.{Json}
use pywings.Result.{Result, ok, err}
use pywings.Events.{mem}
use pywings.Servers.{offline, starting}
use pywings.Processes.State.{Manager, Host, is_running, publish, log_activity, state_of}
use pywings.Processes.Start.{
  usable, update, has_image, keep_configuration, fill_from_panel, look_again, complete, booted,
  boot_failed, launches, launch, cleanup,
}
use pywings.Processes.Framing.{
  state_of-set_server_state, state_of-keep_configuration, is_running-set_server_state,
  is_running-keep_configuration,
}
use pywings.Processes.Consistent.{
  IsConsistent, is_watched-append, set_server_state-IsConsistent, keep_configuration-IsConsistent,
  publish-IsConsistent, end-IsConsistent, without_all-IsFewer, is_running_fewer,
}

-- A boot is under way: the server is marked as starting and no process of it runs yet.
pub record IsBooting (uuid : Text) (m : Manager) : Type 0 where
  pub consistent : IsConsistent m
  pub marked : state_of m uuid ≡ some starting
  pub idle : is_running m uuid ≡ false

-- The outcome of a boot: it is under way with a new process, or the server is offline with none.
abbrev pub HasBooted : Text → Manager → Type 0
HasBooted uuid m = (state_of m uuid ≡ some starting) × (is_running m uuid ≡ true)

abbrev pub HasFailed : Text → Manager → Type 0
HasFailed uuid m = (state_of m uuid ≡ some offline) × (is_running m uuid ≡ false)

module _ (h : Host) (uuid : Text) where
  keep-IsBooting :
      (conf : Json) (m : Manager)
      → IsBooting uuid m
      → IsBooting uuid (keep_configuration uuid conf m)
  keep-IsBooting conf m b = record {
    consistent = keep_configuration-IsConsistent h uuid conf m b.consistent;
    marked = ground (arith, state_of-keep_configuration h uuid m uuid conf);
    idle = ground (arith, is_running-keep_configuration h uuid m uuid conf);
  }

  fill_from_panel-IsBooting :
      (conf : Json) (m : Manager)
      → IsBooting uuid m
      → IsBooting uuid (fill_from_panel h uuid conf m).1
  unfolding fill_from_panel
  fill_from_panel-IsBooting conf m b = elim (Option-cases (usable (h.panel uuid))) [
    | inl e ↦ rw (e, fill_from_panel) b
    | inr (fresh, e) ↦ elim (Option-cases (update conf fresh)) [
      | inl f ↦ rw (e, f, fill_from_panel) b
      | inr (filled, f) ↦ rw (e, f, fill_from_panel) (keep-IsBooting filled m b)
    ]
  ]

  look_again-manager : (x : Option Json × Manager) → (look_again uuid x).1 ≡ x.1
  unfolding look_again
  look_again-manager (none, m) = refl
  look_again-manager (some conf, m) = ground arith

  pub complete-IsBooting :
      (conf : Json) (m : Manager) → IsBooting uuid m → IsBooting uuid (complete h uuid conf m).1
  unfolding complete
  complete-IsBooting conf m b = elim (has_image conf) as (λ r. IsBooting uuid (complete_from r).1) [
    | err e ↦ b
    | ok true ↦ b
    | ok false ↦
        rw (look_again-manager (fill_from_panel h uuid conf m)) (fill_from_panel-IsBooting conf m b)
  ]
    where
      complete_from : Result Bool → Option Json × Manager
      complete_from (err e) = (none, m)
      complete_from (ok true) = (some conf, m)
      complete_from (ok false) = look_again uuid (fill_from_panel h uuid conf m)

  pub cleanup-IsBooting : (m : Manager) → IsBooting uuid m → IsBooting uuid (cleanup h uuid m)
  unfolding cleanup
  cleanup-IsBooting m b = record {
    consistent = end-IsConsistent _ m (without_all-IsFewer (h.belonging uuid) m.alive) b.consistent;
    marked = b.marked;
    idle =
        ground (arith, is_running_fewer _ m uuid (without_all-IsFewer (h.belonging uuid) m.alive));
  }

  pub booted-IsConsistent :
      (conf : Json) (m : Manager) → IsConsistent m → IsConsistent (booted h uuid conf m)
  unfolding booted publish log_activity is_running mem
  booted-IsConsistent conf m c = record {
    known = λ j p e. ground (arith, Dict.lookup-insert uuid j m.fresh m.processes, c.known j p);
    living = λ p a. ground (arith, c.living p);
    watched = λ j p e. ground (
      arith,
      Dict.lookup-insert uuid j m.fresh m.processes,
      text_eq_iff uuid j,
      is_watched-append j p m.watchers
          (record { server = uuid; process = m.fresh; configuration = conf }),
      c.watched j p,
    );
    timed = λ j. ground (
      arith,
      Dict.lookup-insert uuid j m.fresh m.processes,
      Dict.lookup-insert uuid j m.clock m.started_at,
      c.timed j,
    );
    owned = λ j k p e f. ground (
      arith,
      Dict.lookup-insert uuid j m.fresh m.processes,
      Dict.lookup-insert uuid k m.fresh m.processes,
      text_eq_iff uuid j,
      text_eq_iff uuid k,
      c.known j p,
      c.known k p,
      c.owned j k p,
    );
  }

  booted-HasBooted :
      (conf : Json) (m : Manager) → IsBooting uuid m → HasBooted uuid (booted h uuid conf m)
  unfolding booted publish log_activity is_running mem
  booted-HasBooted conf m b =
      ground (arith, Dict.lookup-insert uuid uuid m.fresh m.processes, text_eq_refl uuid)

  boot_failed-IsConsistent : (m : Manager) → IsBooting uuid m → IsConsistent (boot_failed h uuid m)
  unfolding boot_failed
  boot_failed-IsConsistent m b = publish-IsConsistent uuid _ _ _ (
      publish-IsConsistent uuid _ _ _ (set_server_state-IsConsistent h uuid offline m b.consistent))

  boot_failed-HasFailed : (m : Manager) → IsBooting uuid m → HasFailed uuid (boot_failed h uuid m)
  unfolding boot_failed publish is_running
  boot_failed-HasFailed m b = ground (
    arith,
    text_eq_refl uuid,
    state_of-set_server_state h uuid m uuid offline,
    is_running-set_server_state h uuid m uuid offline,
  )

  pub launch-IsConsistent :
      (x : Option Json × Manager) → IsBooting uuid x.1 → IsConsistent (launch h uuid x)
  unfolding launch
  launch-IsConsistent (none, m) b = boot_failed-IsConsistent m b
  launch-IsConsistent (some conf, m) b =
      elim (launches h uuid conf)
        as (λ t. IsConsistent (if t then booted h uuid conf m else boot_failed h uuid m)) [
          | true ↦ booted-IsConsistent conf m b.consistent
          | false ↦ boot_failed-IsConsistent m b
        ]

  pub launch-outcome :
      (x : Option Json × Manager)
      → IsBooting uuid x.1
      → HasBooted uuid (launch h uuid x) ⊎ HasFailed uuid (launch h uuid x)
  unfolding launch
  launch-outcome (none, m) b = inr (boot_failed-HasFailed m b)
  launch-outcome (some conf, m) b =
      elim (launches h uuid conf)
        as (λ t.
          let r = (if t then booted h uuid conf m else boot_failed h uuid m) in
          HasBooted uuid r ⊎ HasFailed uuid r) [
            | true ↦ inl (booted-HasBooted conf m b)
            | false ↦ inr (boot_failed-HasFailed m b)
          ]
