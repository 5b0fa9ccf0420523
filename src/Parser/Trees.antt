-- ===== src/Parser/Trees.antt =====
-- wings/parser.py: `_update_json` and `_update_yaml`, on the values that json and yaml read and write.
use pywings.Prelude.{
  true, false, Option, none, some, List, [], ◌∷◌, ◌++◌, Text, lit, text_eq, is_empty, lower, split,
  strip, if◌then◌else◌,
}
use pywings.Prelude.Dict.{Dict}
use pywings.Json.{
  Json, bool, int, str, obj, Items, nil, cons, Fields, end, get_field, set_field, truthy,
}
use pywings.Json.Printed.{text_of}
use pywings.Numbers.{natural}
use pywings.Result.{Result, ok, err, type_error, ◌>>=◌}
use pywings.Processes.Watch.{Regex}
use pywings.Parser.Values.{Replacement, replacement_of, text_or_error}
use pywings.Parser.Properties.{matches_if_value}

-- json.loads, json.dumps(…, indent=2), yaml.safe_load and yaml.safe_dump(…, sort_keys=False); none is
-- an exception.
pub record Formats : Type 0 where
  pub loads : Text → Option Json
  pub dumps : Json → Text
  pub safe_load : Text → Option Json
  pub safe_dump : Json → Text

-- What a replacement becomes in JSON.
unfoldable pub parsed_value : Text → Json
unfolding lower text_eq
parsed_value s =
    if text_eq (lower s) (lit "true")
    then bool true
    else if text_eq (lower s) (lit "false")
    then bool false
    else elim (natural s) [ none ↦ str s | some n ↦ int n ]

-- The value of the last key, unless the condition does not hold of the one that is there.
unfoldable pub set_leaf : Regex → Json → Json → Text → Fields → Result Fields
unfolding truthy set_field get_field
set_leaf re condition new k fs = elim (get_field k fs) [
  | none ↦ ok (set_field k new fs)
  | some v ↦ do
    applies ← matches_if_value re condition (text_of v)
    ok (if applies then set_field k new fs else fs)
]

-- The object below a key, or a new one in place of what is no object.
unfoldable pub inner_of : Option Json → Fields
inner_of (some (obj fs)) = fs
inner_of v = end

-- The walk along the keys. Objects that it makes stay if the condition does not hold.
unfoldable pub set_path : Regex → Json → Json → Text → List Text → Fields → Result Fields
unfolding get_field set_field
set_path re condition new k [] fs = set_leaf re condition new k fs
set_path re condition new k (j ∷ ks) fs = do
  inner ← set_path re condition new j ks (inner_of (get_field k fs))
  ok (set_field k (obj inner) fs)

-- One round of the loop. What is no object has no keys to set, which is an exception.
unfoldable pub set_value : Regex → (Text → Json) → Replacement → Json → Result Json
unfolding split
set_value re value r held = do
  path ← text_or_error r.match
  elim held [
    | obj fs ↦ do
      fs' ← set_path re r.if_value (value r.replace_with) (split b'.' path).0 (split b'.' path).1 fs
      ok (obj fs')
    | v ↦ err type_error
  ]

-- What a file holds; nothing, or what cannot be read, is an object without keys.
unfoldable pub data_of : (Text → Option Json) → Text → Json
unfolding strip
data_of load content =
    if is_empty (strip content)
    then obj end
    else elim (load content) [ none ↦ obj end | some v ↦ v ]

unfoldable pub object_or_new : Json → Json
object_or_new (obj fs) = obj fs
object_or_new v = obj end

module _ (re : Regex) (formats : Formats) (conf : Fields) (env : Dict Text) where
  unfoldable pub set_values : (Text → Json) → Items → Json → Result Json
  set_values value nil held = ok held
  set_values value (cons v vs) held = do
    r ← replacement_of conf env v
    next ← set_value re value r held
    set_values value vs next

  -- `_update_json`
  unfoldable pub update_json : Text → Items → Result Text
  update_json content vs = do
    held' ← set_values parsed_value vs (data_of formats.loads content)
    ok (formats.dumps held' ++ (10 ∷ []))

  -- `_update_yaml`
  unfoldable pub update_yaml : Text → Items → Result Text
  update_yaml content vs = do
    held' ← set_values str vs (object_or_new (data_of formats.safe_load content))
    ok (formats.safe_dump held')
