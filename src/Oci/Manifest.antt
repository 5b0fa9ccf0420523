-- ===== src/Oci/Manifest.antt =====
-- wings/oci/manifest.py: `ManifestParser`, over the values that `json` reads.
use pywings.Prelude.{
  Bool, true, false, not, ◌&&◌, ◌||◌, Option, none, some, List, [], ◌∷◌, Text, lit, text_eq, lower,
  has_text, if◌then◌else◌,
}
use pywings.Numbers.{Whole, plus, minus, int_text}
use pywings.Json.{
  Json, null, bool, int, neg, str, arr, obj, Items, nil, cons, Fields, end, field, get_field,
  get_or_null, truthy, or_else,
}
use pywings.Result.{Result, ok, err, value_error, type_error, attribute_error, key_error, ◌>>=◌}

-- `Descriptor`; the values of the JSON object are taken as they are.
pub record Descriptor : Type 0 where
  pub media_type : Json
  pub digest : Json
  pub size : Whole
  pub platform : Json

pub record Manifest : Type 0 where
  pub schema_version : Whole
  pub media_type : Json
  pub config_descriptor : Descriptor
  pub layers : List Descriptor

abbrev pub oci_manifest : Json
oci_manifest = str (lit "application/vnd.oci.image.manifest.v1+json")

-- d.get(k, v)
abbrev pub get_default : Text → Json → Fields → Json
get_default k v fs = elim (get_field k fs) [ none ↦ v | some w ↦ w ]

-- d[k]
abbrev pub get_item : Text → Fields → Result Json
get_item k fs = elim (get_field k fs) [ none ↦ err key_error | some v ↦ ok v ]

-- int(v)
unfoldable pub int_of : Json → Result Whole
int_of (bool false) = ok (plus 0)
int_of (bool true) = ok (plus 1)
int_of (int n) = ok (plus n)
int_of (neg n) = ok (minus n)
int_of (str s) = elim (int_text s) [
  | none ↦ err (value_error (lit "invalid literal for int()"))
  | some n ↦ ok n
]
int_of v = err type_error

-- A descriptor of an object, where `media_type` is the default.
unfoldable pub describe : Json → Fields → Json → Result Descriptor
describe media_type fs platform = do
  digest ← get_item (lit "digest") fs
  size ← int_of (get_default (lit "size") (int 0) fs)
  ok (record {
    media_type = get_default (lit "mediaType") media_type fs;
    digest = digest;
    size = size;
    platform = platform;
  })

-- item.get("platform") or {}
abbrev pub platform_of : Fields → Json
platform_of fs = or_else (get_or_null (lit "platform") fs) (obj end)

-- platform.get(k, "").lower()
unfoldable pub lower_of : Text → Json → Result Text
lower_of k (obj fs) = elim (get_default k (str []) fs) [
  | str s ↦ ok (lower s)
  | v ↦ err attribute_error
]
lower_of k v = err attribute_error

-- The tests of the two loops of `resolve_platform_manifest`.
unfoldable pub is_for : Text → Text → Fields → Result Bool
is_for target_os target_arch fs = do
  item_os ← lower_of (lit "os") (platform_of fs)
  item_arch ← lower_of (lit "architecture") (platform_of fs)
  ok (text_eq item_os target_os && text_eq item_arch target_arch)

unfoldable pub is_linux : Fields → Result Bool
is_linux fs = do item_os ← lower_of (lit "os") (platform_of fs); ok (text_eq item_os (lit "linux"))

-- A loop that returns at the first item that passes a test.
unfoldable pub find : (Fields → Result Bool) → Items → Result (Option Fields)
find test nil = ok none
find test (cons (obj fs) items) =
    let rest = find test items in test fs >>= λ passes. if passes then ok (some fs) else rest
find test (cons v items) = err attribute_error

-- Behind both loops.
unfoldable pub take_first : Items → Result Descriptor
take_first (cons (obj fs) items) = describe oci_manifest fs (get_or_null (lit "platform") fs)
take_first v = err attribute_error

abbrev pub describe_item : Fields → Result Descriptor
describe_item fs = describe oci_manifest fs (platform_of fs)

unfoldable pub resolve_items : Text → Text → Items → Result Descriptor
resolve_items target_os target_arch items = find (is_for target_os target_arch) items >>= λ found.
    elim found [
      | some fs ↦ describe_item fs
      | none ↦ find is_linux items >>= λ fallback. elim fallback [
        | some fs ↦ describe_item fs
        | none ↦ take_first items
      ]
    ]

-- What the index has under `manifests`. A text and an object have items that are texts.
unfoldable pub resolve_in : Json → Text → Text → Result Descriptor
resolve_in manifests target_os target_arch =
    if truthy manifests
    then elim manifests [
      | arr items ↦ resolve_items target_os target_arch items
      | str s ↦ err attribute_error
      | obj fs ↦ err attribute_error
      | v ↦ err type_error
    ]
    else err (value_error (lit "Manifest list/index contains no manifests"))

unfoldable pub resolve_platform_manifest : Fields → Text → Text → Result Descriptor
resolve_platform_manifest index_json target_os target_arch =
    resolve_in (get_default (lit "manifests") (arr nil) index_json) target_os target_arch

-- `is_index`; the test for a member of a set raises on a list or an object.
unfoldable pub is_index : Fields → Result Bool
is_index raw_json = elim (get_default (lit "mediaType") (str []) raw_json) [
  | arr v ↦ err type_error
  | obj v ↦ err type_error
  | str s ↦ ok (
      text_eq s (lit "application/vnd.docker.distribution.manifest.list.v2+json")
      || text_eq s (lit "application/vnd.oci.image.index.v1+json")
      || lists_manifests raw_json)
  | v ↦ ok (lists_manifests raw_json)
]
  where
    has : Text → Fields → Bool
    has k fs = elim (get_field k fs) [ none ↦ false | some v ↦ true ]

    lists_manifests : Fields → Bool
    lists_manifests fs = has (lit "manifests") fs && not (has (lit "layers") fs)

-- "digest" in items, for a list.
unfoldable pub has_item : Items → Bool
has_item nil = false
has_item (cons (str s) items) = text_eq s (lit "digest") || has_item items
has_item (cons v items) = has_item items

-- "digest" in v
unfoldable pub has_digest : Json → Result Bool
has_digest (obj fs) = elim (get_field (lit "digest") fs) [ none ↦ ok false | some v ↦ ok true ]
has_digest (str s) = ok (has_text (lit "digest") s)
has_digest (arr items) = ok (has_item items)
has_digest v = err type_error

-- A descriptor of a value that has a digest: one that is no object has no `get`.
abbrev pub describe_value : Json → Result Descriptor
describe_value v = elim v [ obj fs ↦ describe (str []) fs null | w ↦ err attribute_error ]

-- The layers, those without a digest passed over.
unfoldable pub layers_of : Items → Result (List Descriptor)
layers_of nil = ok []
layers_of (cons v items) =
    let rest = layers_of items in
    has_digest v >>= λ present.
    if present then (describe_value v >>= λ d. rest >>= λ ds. ok (d ∷ ds)) else rest

-- The keys of an object, and the characters of a text, none of which has "digest" in it.
unfoldable pub keys : Fields → Items
keys end = nil
keys (field k v fs) = cons (str k) (keys fs)

unfoldable pub layers_in : Json → Result (List Descriptor)
layers_in (arr items) = layers_of items
layers_in (obj fs) = layers_of (keys fs)
layers_in (str s) = ok []
layers_in v = err type_error

-- The descriptor of the configuration: `not cfg or "digest" not in cfg` raises.
unfoldable pub config_of : Json → Result Descriptor
config_of config = (if truthy config then has_digest config else ok false) >>= λ present.
    if present
    then describe_value config
    else err (value_error (lit "Image manifest is missing valid config descriptor"))

unfoldable pub parse_image_manifest : Fields → Result Manifest
parse_image_manifest manifest_json = do
  schema_version ← int_of (get_default (lit "schemaVersion") (int 2) manifest_json)
  config_descriptor ← config_of (get_or_null (lit "config") manifest_json)
  layers ← layers_in (get_default (lit "layers") (arr nil) manifest_json)
  ok (record {
    schema_version = schema_version;
    media_type = get_default (lit "mediaType") oci_manifest manifest_json;
    config_descriptor = config_descriptor;
    layers = layers;
  })
