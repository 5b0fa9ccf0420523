-- ===== src/Servers/Persistence.antt =====
-- What a start of the daemon reads back from the file that the registry wrote.
use pywings.Prelude.{
  ◌≡◌, ◌≢◌, refl, Bool, true, none, some, [], ◌∷◌, ◌++◌, map, ◌∙◌, Text, text_eq, text_eq_iff,
  text_eq_refl, arith, All, ap, if◌then◌else◌,
}
use mathlib.Core.List.{append-nil, append_assoc}
use pywings.Prelude.Dict
use pywings.Prelude.Dict.{Dict}
use pywings.Json.{or_else, get_field, get_or_null, truthy}
use pywings.Servers.{Server, offline, to_storage, to_items, save, bare, load_item, load_items, load}

-- A server as it is after a restart: offline, and with a configuration that names it if it had none.
unfoldable pub restored : Server → Server
unfolding truthy
restored r = record r { configuration = or_else r.configuration (bare r.uuid); state = offline }

abbrev pub restored_entry : Text × Server → Text × Server
restored_entry (k, r) = (k, restored r)

abbrev pub NodupKeys : Dict Server → Type 0
NodupKeys [] = Unit
NodupKeys ((k, r) ∷ d) = (Dict.lookup k d ≡ none) × NodupKeys d

-- Servers stand under their own UUID, of version 4.
abbrev pub AreNamed : (Text → Bool) → Dict Server → Type 0
AreNamed is_uuid4 = All λ (k, r). (r.uuid ≡ k) × (is_uuid4 k ≡ true)

insert-append :
    (k : Text) (r : Server) (d : Dict Server)
    → Dict.lookup k d ≡ none
    → Dict.insert k r d ≡ d ++ ((k, r) ∷ [])
unfolding Dict.lookup Dict.insert
insert-append k r [] h = refl
insert-append k r ((j, w) ∷ d) h = ground (arith, insert-append k r d)

lookup-append :
    (k j : Text) (r : Server) (d : Dict Server)
    → Dict.lookup j (d ++ ((k, r) ∷ []))
      ≡ elim (Dict.lookup j d) [ none ↦ if text_eq k j then some r else none | some w ↦ some w ]
unfolding Dict.lookup
lookup-append k j r [] = refl
lookup-append k j r ((i, w) ∷ d) = ground (arith, lookup-append k j r d)

lookup-cons_self : (k : Text) (r : Server) (d : Dict Server) → Dict.lookup k ((k, r) ∷ d) ≢ none
unfolding Dict.lookup
lookup-cons_self k r d = rw text_eq_refl (λ h. cc)

abbrev AreDisjoint : Dict Server → Dict Server → Type 0
AreDisjoint acc d = (k : Text) → Dict.lookup k d ≢ none → Dict.lookup k acc ≡ none

AreDisjoint-cons :
    (k : Text) (r w : Server) (d acc : Dict Server)
    → Dict.lookup k d ≡ none
    → AreDisjoint acc ((k, r) ∷ d)
    → AreDisjoint (acc ++ ((k, w) ∷ [])) d
unfolding Dict.lookup
AreDisjoint-cons k r w d acc fresh apart j h =
    ground (arith, lookup-append k j w acc, text_eq_iff k j, apart j)

module _ (is_uuid4 : Text → Bool) where
  load_item-to_storage :
      (k : Text) (r : Server) (acc : Dict Server)
      → (r.uuid ≡ k)
      → (is_uuid4 k ≡ true)
      → Dict.lookup k acc ≡ none
      → load_item is_uuid4 (to_storage r) acc ≡ acc ++ ((k, restored r) ∷ [])
  unfolding load_item to_storage restored get_field get_or_null text_eq truthy
  load_item-to_storage k r acc name valid absent = rw (name, valid) (insert-append k _ acc absent)

  load_items-to_items :
      (d acc : Dict Server)
      → AreNamed is_uuid4 d
      → NodupKeys d
      → AreDisjoint acc d
      → load_items is_uuid4 (to_items d) acc ≡ acc ++ map restored_entry d
  unfolding load_items to_items
  load_items-to_items [] acc named distinct apart = rw append-nil
  load_items-to_items ((k, r) ∷ d) acc ((name, valid), named) (fresh, distinct) apart =
      rw (load_item-to_storage k r acc name valid (apart k (lookup-cons_self k r d)), load_items)
        (load_items-to_items d (acc ++ ((k, restored r) ∷ [])) named distinct
            (AreDisjoint-cons k r _ d acc fresh apart)
          ∙ append_assoc acc _ _)

  -- What the registry wrote is read back as every server, in order, `restored`, where the servers stand
  -- under their own UUIDs of version 4 and no UUID stands twice.
  pub load-save :
      (d : Dict Server)
      → AreNamed is_uuid4 d
      → NodupKeys d
      → load is_uuid4 (save d).file ≡ some (map restored_entry d)
  unfolding load save
  load-save d named distinct =
      ap some (load_items-to_items d [] named distinct (λ k h. Dict.lookup-nil k))
