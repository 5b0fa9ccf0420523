-- ===== src/Servers/Synced.antt =====
-- The file follows the registry through every operation that the daemon calls.
use pywings.Prelude.{
  ◌≡◌, ◌∙◌, refl, Bool, true, Option, none, some, if◌then◌else◌, List, [], ◌∷◌, map, Text,
  text_eq_iff, arith, All, Option-cases, inl, inr,
}
use pywings.Prelude.Dict
use pywings.Prelude.Dict.{Dict}
use pywings.Json.{Json, arr, truthy}
use pywings.Servers.{
  Server, Store, State, to_items, save, add, ensure, remove, update_state, update_configuration,
  load, offline, bare,
}
use pywings.Servers.Persistence.{NodupKeys, AreNamed, restored, load-save}

NodupKeys-insert :
    (k : Text) (r : Server) (d : Dict Server) → NodupKeys d → NodupKeys (Dict.insert k r d)
unfolding Dict.insert
NodupKeys-insert k r [] h = (Dict.lookup-nil k, tt)
NodupKeys-insert k r ((j, w) ∷ d) (fresh, h) =
    ground (
      arith,
      NodupKeys-insert k r d h,
      Dict.lookup-insert k j r d,
      text_eq_iff k j,
      text_eq_iff j k,
    )

NodupKeys-erase : (k : Text) (d : Dict Server) → NodupKeys d → NodupKeys (Dict.erase k d)
unfolding Dict.erase
NodupKeys-erase k [] h = tt
NodupKeys-erase k ((j, w) ∷ d) (fresh, h) =
    ground (arith, NodupKeys-erase k d h, Dict.lookup-erase k j d)

-- A call of one of the registry's methods.
pub data Call : Type 0 where
  addition : Server → Call
  presence removal : Text → Call
  transition : Text → State → Call
  configuration : Text → Json → Call

unfoldable pub perform : Call → Store → Store
perform (addition r) s = add r s
perform (presence uuid) s = (ensure uuid s).1
perform (removal uuid) s = (remove uuid s).1
perform (transition uuid state) s = (update_state uuid state s).1
perform (configuration uuid conf) s = (update_configuration uuid conf s).1

unfoldable pub perform_all : List Call → Store → Store
perform_all [] s = s
perform_all (c ∷ cs) s = perform_all cs (perform c s)

module _ (is_uuid4 : Text → Bool) where
  AreNamed-insert :
      (k : Text) (r : Server) (d : Dict Server)
      → r.uuid ≡ k
      → is_uuid4 k ≡ true
      → AreNamed is_uuid4 d
      → AreNamed is_uuid4 (Dict.insert k r d)
  unfolding Dict.insert
  AreNamed-insert k r [] name valid h = ((name, valid), tt)
  AreNamed-insert k r ((j, w) ∷ d) name valid h =
      ground (arith, AreNamed-insert k r d name valid h.1, text_eq_iff j k)

  AreNamed-erase :
      (k : Text) (d : Dict Server) → AreNamed is_uuid4 d → AreNamed is_uuid4 (Dict.erase k d)
  unfolding Dict.erase
  AreNamed-erase k [] h = tt
  AreNamed-erase k ((j, w) ∷ d) h = ground (arith, AreNamed-erase k d h.1)

  AreNamed-lookup :
      (k : Text) (r : Server) (d : Dict Server)
      → AreNamed is_uuid4 d
      → Dict.lookup k d ≡ some r
      → (r.uuid ≡ k) × (is_uuid4 k ≡ true)
  unfolding Dict.lookup
  AreNamed-lookup k r [] h e = cc
  AreNamed-lookup k r ((j, w) ∷ d) h e = ground (arith, AreNamed-lookup k r d h.1, text_eq_iff j k)

  pub record IsValid (s : Store) : Type 0 where
    pub synced : s.file ≡ some (arr (to_items s.servers))
    pub named : AreNamed is_uuid4 s.servers
    pub distinct : NodupKeys s.servers

  -- The server that a call may add has a UUID of version 4.
  abbrev pub HasUuid : Call → Type 0
  HasUuid (addition r) = is_uuid4 r.uuid ≡ true
  HasUuid (presence uuid) = is_uuid4 uuid ≡ true
  HasUuid (removal uuid) = Unit
  HasUuid (transition uuid state) = Unit
  HasUuid (configuration uuid conf) = is_uuid4 uuid ≡ true

  insert-IsValid :
      (k : Text) (r : Server) (s : Store)
      → r.uuid ≡ k
      → is_uuid4 k ≡ true
      → IsValid s
      → IsValid (save (Dict.insert k r s.servers))
  unfolding save
  insert-IsValid k r s name valid v = record {
    synced = refl;
    named = AreNamed-insert k r s.servers name valid v.named;
    distinct = NodupKeys-insert k r s.servers v.distinct;
  }

  pub perform-IsValid : (c : Call) (s : Store) → HasUuid c → IsValid s → IsValid (perform c s)
  unfolding perform add ensure remove update_state update_configuration
  perform-IsValid (addition r) s h v = insert-IsValid r.uuid r s refl h v
  perform-IsValid (presence uuid) s h v = elim (Option-cases (Dict.lookup uuid s.servers)) [
    | inl e ↦ rw (e, perform) (insert-IsValid uuid _ s refl h v)
    | inr (r, e) ↦ rw (e, perform) v
  ]
  perform-IsValid (removal uuid) s h v = elim (Option-cases (Dict.lookup uuid s.servers)) [
    | inl e ↦ rw (e, perform) v
    | inr (r, e) ↦
        rw (e, perform)
          (unfold save in
            record {
              synced = refl;
              named = AreNamed-erase uuid s.servers v.named;
              distinct = NodupKeys-erase uuid s.servers v.distinct;
            })
  ]
  perform-IsValid (transition uuid state) s h v = elim (Option-cases (Dict.lookup uuid s.servers)) [
    | inl e ↦ rw (e, perform) v
    | inr (r, e) ↦
        let (name, valid) = AreNamed-lookup uuid r s.servers v.named e in
        rw (e, perform) (insert-IsValid uuid _ s name valid v)
  ]
  perform-IsValid (configuration uuid conf) s h v =
      elim (Option-cases (Dict.lookup uuid s.servers)) [
        | inl e ↦ rw (e, perform) (insert-IsValid uuid _ s refl h v)
        | inr (r, e) ↦
            let (name, valid) = AreNamed-lookup uuid r s.servers v.named e in
            rw (e, perform) (insert-IsValid uuid _ s name valid v)
      ]

  pub perform_all-IsValid :
      (cs : List Call) (s : Store) → All HasUuid cs → IsValid s → IsValid (perform_all cs s)
  unfolding perform_all
  perform_all-IsValid [] s h v = v
  perform_all-IsValid (c ∷ cs) s h v =
      perform_all-IsValid cs (perform c s) h.1 (perform-IsValid c s h.0 v)

  -- The text of the file: json.dump with the line end behind it, which json.load passes over. A text
  -- that json.load cannot read raises a ValueError, as a file without a list does.
  module _ (dumps : Json → Text) (loads : Text → Option Json) where
    unfoldable pub written : Store → Option Text
    written s = elim s.file [ none ↦ none | some v ↦ some (dumps v) ]

    unfoldable pub restart : Option Text → Option (Dict Server)
    restart none = load is_uuid4 none
    restart (some text) = elim (loads text) [ none ↦ none | some v ↦ load is_uuid4 (some v) ]

    restart-written :
        (s : Store)
        → loads (dumps (arr (to_items s.servers))) ≡ some (arr (to_items s.servers))
        → s.file ≡ some (arr (to_items s.servers))
        → restart (written s) ≡ load is_uuid4 s.file
    unfolding restart written
    restart-written s reads synced = rw (synced, reads) refl

    -- A restart after any calls of the registry's methods, from a valid registry and with UUIDs of
    -- version 4, reads back from the text of the file, where json.load gives what json.dump wrote, every
    -- server that the registry holds by then, in order: under its UUID, with its suspension, offline,
    -- and with its configuration, in place of which one that is empty or null comes back as the object
    -- with the UUID alone.
    pub load-perform_all :
        (cs : List Call) (s : Store)
        → All HasUuid cs
        → IsValid s
        → loads (dumps (arr (to_items (perform_all cs s).servers)))
          ≡ some (arr (to_items (perform_all cs s).servers))
        → restart (written (perform_all cs s))
          ≡ some (
              map
                (λ (k, r). (
                  k,
                  record {
                    uuid = r.uuid;
                    configuration = if truthy r.configuration then r.configuration else bare r.uuid;
                    state = offline;
                    is_suspended = r.is_suspended;
                  },
                ))
                (perform_all cs s).servers)
    unfolding restored
    load-perform_all cs s h v reads =
        let w = perform_all-IsValid cs s h v in
        restart-written (perform_all cs s) reads w.synced
        ∙ rw w.synced
            (unfold save in load-save is_uuid4 (perform_all cs s).servers w.named w.distinct)
