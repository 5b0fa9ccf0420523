-- ===== src/Servers.antt =====
-- wings/servers.py: the registry of servers and its JSON file. A missing file is `none`; `file` is the
-- value that is written, and Synced has the text that stands for it.
pub mod Lookup
pub mod Persistence
pub mod Synced
use pywings.Prelude.{
  ℕ, ◌==◌, Bool, true, false, Option, none, some, List, [], ◌∷◌, ◌&&◌, Text, lit, if◌then◌else◌,
}
use pywings.Prelude.Dict
use pywings.Prelude.Dict.{Dict}
use pywings.Json.{
  Json, null, bool, str, arr, obj, Items, nil, cons, Fields, end, field, get_or_null, truthy,
  or_else,
}

-- The texts that the program writes into `state`.
pub data State : Type 0 where
  offline starting running stopping installing install_failed restoring : State

unfoldable pub state_name : State → Text
state_name offline = lit "offline"
state_name starting = lit "starting"
state_name running = lit "running"
state_name stopping = lit "stopping"
state_name installing = lit "installing"
state_name install_failed = lit "install_failed"
state_name restoring = lit "restoring"

-- a == b of two states.
unfoldable pub state_code : State → ℕ
state_code offline = 0
state_code starting = 1
state_code running = 2
state_code stopping = 3
state_code installing = 4
state_code install_failed = 5
state_code restoring = 6

unfoldable pub same_state : State → State → Bool
unfolding state_code
same_state a b = state_code a == state_code b

-- `ServerRecord`
pub record Server : Type 0 where
  pub uuid : Text
  pub configuration : Json
  pub state : State
  pub is_suspended : Bool

-- `ServerStore`: the registry, and what servers.json holds.
pub record Store : Type 0 where
  pub servers : Dict Server
  pub file : Option Json

unfoldable pub to_storage : Server → Json
unfolding state_name
to_storage r = obj (
    field (lit "uuid") (str r.uuid) (
      field (lit "configuration") r.configuration (
        field (lit "state") (str (state_name r.state))
          (field (lit "is_suspended") (bool r.is_suspended) end))))

unfoldable pub to_items : Dict Server → Items
unfolding to_storage
to_items [] = nil
to_items ((_, r) ∷ d) = cons (to_storage r) (to_items d)

-- `_save`: the whole registry is written to another file, which then takes the file's place.
unfoldable pub save : Dict Server → Store
unfolding to_items
save d = record { servers = d; file = some (arr (to_items d)) }

-- {"uuid": uuid}
abbrev pub bare : Text → Json
bare uuid = obj (field (lit "uuid") (str uuid) end)

-- `get`
abbrev pub get : Store → Text → Option Server
get s uuid = Dict.lookup uuid s.servers

unfoldable pub add : Server → Store → Store
unfolding save
add r s = save (Dict.insert r.uuid r s.servers)

unfoldable pub ensure : Text → Store → Server × Store
unfolding save
ensure uuid s = elim (get s uuid) [
  | some r ↦ (r, s)
  | none ↦
      let r : Server = record {
        uuid = uuid;
        configuration = bare uuid;
        state = offline;
        is_suspended = false;
      } in
      (r, save (Dict.insert uuid r s.servers))
]

unfoldable pub remove : Text → Store → Bool × Store
unfolding save
remove uuid s =
    if Dict.has_key uuid s.servers then (true, save (Dict.erase uuid s.servers)) else (false, s)

unfoldable pub update_state : Text → State → Store → Option Server × Store
unfolding save
update_state uuid state s = elim (get s uuid) [
  | none ↦ (none, s)
  | some r ↦
      let r' : Server = record r { state = state } in
      (some r', save (Dict.insert uuid r' s.servers))
]

unfoldable pub update_configuration : Text → Json → Store → Server × Store
unfolding save
update_configuration uuid conf s = elim (get s uuid) [
  | none ↦
      let r : Server = record {
        uuid = uuid;
        configuration = conf;
        state = offline;
        is_suspended = false;
      } in
      (r, save (Dict.insert uuid r s.servers))
  | some r ↦
      let r' : Server = record r { configuration = conf } in
      (r', save (Dict.insert uuid r' s.servers))
]

-- `is_uuid4` stands for `UUID(value).version == 4`. A "uuid" that is no text is passed over.
module _ (is_uuid4 : Text → Bool) where
  load_entry : Json → Fields → Dict Server → Dict Server
  load_entry (str uuid) fs d =
      if is_uuid4 uuid
      then Dict.insert uuid
          (record {
            uuid = uuid;
            configuration = or_else (get_or_null (lit "configuration") fs) (bare uuid);
            state = offline;
            is_suspended = truthy (get_or_null (lit "is_suspended") fs);
          })
          d
      else d
  load_entry v fs d = d

  load_item : Json → Dict Server → Dict Server
  unfolding load_entry
  load_item (obj fs) d = load_entry (get_or_null (lit "uuid") fs) fs d
  load_item v d = d

  load_items : Items → Dict Server → Dict Server
  unfolding load_item
  load_items nil d = d
  load_items (cons item items) d = load_items items (load_item item d)

  -- `_load` into an empty registry; `none` is the ValueError of a file that holds no list.
  unfoldable pub load : Option Json → Option (Dict Server)
  unfolding load_items
  load none = some []
  load (some (arr items)) = some (load_items items [])
  load (some v) = none
