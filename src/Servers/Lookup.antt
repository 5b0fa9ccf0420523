-- ===== src/Servers/Lookup.antt =====
-- What `get` returns after each operation of the registry.
use pywings.Prelude.{
  ◌≡◌, false, none, some, Text, text_eq, text_eq_iff, arith, Option-cases, inl, inr, if◌then◌else◌,
}
use pywings.Prelude.Dict
use pywings.Json.{Json}
use pywings.Servers.{Store, State, offline, get, save, update_state, update_configuration, remove}

module _ (uuid j : Text) (s : Store) where
  pub get-update_state :
      (state : State)
      → get (update_state uuid state s).1 j ≡ (
          if text_eq uuid j
          then (elim (get s j) [ none ↦ none | some r ↦ some (record r { state = state }) ])
          else get s j)
  unfolding update_state save
  get-update_state state = elim (Option-cases (get s uuid)) [
    | inl e ↦ ground (arith, text_eq_iff uuid j)
    | inr (r, e) ↦ ground (
      arith,
      text_eq_iff uuid j,
      Dict.lookup-insert uuid j (record r { state = state }) s.servers,
    )
  ]

  pub get-update_configuration :
      (conf : Json)
      → get (update_configuration uuid conf s).1 j ≡ (
          if text_eq uuid j
          then (elim (get s j) [
            | none ↦ some (record {
              uuid = uuid;
              configuration = conf;
              state = offline;
              is_suspended = false;
            })
            | some r ↦ some (record r { configuration = conf })
          ])
          else get s j)
  unfolding update_configuration save
  get-update_configuration conf = elim (Option-cases (get s uuid)) [
    | inl e ↦ ground (
      arith,
      text_eq_iff uuid j,
      Dict.lookup-insert uuid j
          (record { uuid = uuid; configuration = conf; state = offline; is_suspended = false })
          s.servers,
    )
    | inr (r, e) ↦ ground (
      arith,
      text_eq_iff uuid j,
      Dict.lookup-insert uuid j (record r { configuration = conf }) s.servers,
    )
  ]

  pub get-remove : get (remove uuid s).1 j ≡ (if text_eq uuid j then none else get s j)
  unfolding remove save
  get-remove = elim (Option-cases (get s uuid)) [
    | inl e ↦ ground (arith, text_eq_iff uuid j)
    | inr (r, e) ↦ ground (arith, text_eq_iff uuid j, Dict.lookup-erase uuid j s.servers)
  ]
