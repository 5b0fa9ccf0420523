-- ===== src/Parser/Nested.antt =====
-- A value that `_update_json` or `_update_yaml` sets stands at its path.
use pywings.Prelude.{
  ◌≡◌, ◌≢◌, refl, ◌∙◌, false, Option, none, some, List, [], ◌∷◌, Text, arith, Option-cases, inl,
  inr, text_eq, text_eq_iff, text_eq_refl, if◌then◌else◌,
}
use pywings.Json.{Json, obj, Fields, end, field, get_field, set_field, truthy}
use pywings.Json.Printed.{text_of}
use pywings.Result.{ok}
use pywings.Processes.Watch.{Regex}
use pywings.Parser.Settings.{matches_if_value-unset}
use pywings.Parser.Trees.{set_leaf, inner_of, set_path}

get_field-set_field :
    (k j : Text) (v : Json) (fs : Fields)
    → get_field j (set_field k v fs) ≡ (if text_eq k j then some v else get_field j fs)
unfolding get_field set_field
get_field-set_field k j v end = refl
get_field-set_field k j v (field i w fs) =
    ground (arith, text_eq_iff k j, text_eq_iff i k, text_eq_iff i j, get_field-set_field k j v fs)

get_field-set_field_self :
    (k : Text) (v : Json) (fs : Fields) → get_field k (set_field k v fs) ≡ some v
get_field-set_field_self k v fs = get_field-set_field k k v fs ∙ rw (text_eq_refl k) refl

get_field-set_field_other :
    (k j : Text) (v : Json) (fs : Fields) → j ≢ k → get_field j (set_field k v fs) ≡ get_field j fs
get_field-set_field_other k j v fs h =
    ground (arith, get_field-set_field k j v fs, text_eq_iff k j, h)

-- The fields of an object, and none of what is no object.
unfoldable pub fields_of : Option Json → Fields
fields_of (some (obj fs)) = fs
fields_of v = end

inner_of-fields_of : (o : Option Json) → inner_of o ≡ fields_of o
unfolding inner_of fields_of
inner_of-fields_of none = refl
inner_of-fields_of (some (obj fs)) = refl
inner_of-fields_of (some v) = refl

-- What stands at a path of keys, where each key but the last has an object.
unfoldable pub get_path : Text → List Text → Fields → Option Json
get_path k [] fs = get_field k fs
get_path k (j ∷ ks) fs = get_path j ks (fields_of (get_field k fs))

-- Along the path, every key that is not on it has what it had.
unfoldable pub AreBeside : Text → List Text → Fields → Fields → Type 0
AreBeside k [] out fs = (i : Text) → i ≢ k → get_field i out ≡ get_field i fs
AreBeside k (j ∷ ks) out fs =
    ((i : Text) → i ≢ k → get_field i out ≡ get_field i fs)
    × AreBeside j ks (fields_of (get_field k out)) (fields_of (get_field k fs))

set_leaf-get :
    (re : Regex) (condition new : Json) (k : Text) (fs : Fields)
    → truthy condition ≡ false
    → set_leaf re condition new k fs ≡ ok (set_field k new fs)
unfolding set_leaf
set_leaf-get re condition new k fs h = elim (Option-cases (get_field k fs)) [
  | inl e ↦ rw (e, set_leaf) refl
  | inr (v, e) ↦ rw (e, matches_if_value-unset re condition (text_of v) h, set_leaf) refl
]

-- A replacement of JSON or YAML without a condition succeeds on every object, along any path of keys:
-- the new value stands at the path, where an object stands for what was none on the way, and in the
-- outermost object and in each one on the way every key that is not on the path has what it had.
pub set_path-get_path :
    (re : Regex) (condition new : Json) (k : Text) (ks : List Text) (fs : Fields)
    → truthy condition ≡ false
    → (out : Fields) × (set_path re condition new k ks fs ≡ ok out)
      × (get_path k ks out ≡ some new)
      × AreBeside k ks out fs
unfolding set_path get_path AreBeside fields_of
set_path-get_path re condition new k [] fs h = (
  set_field k new fs,
  set_leaf-get re condition new k fs h,
  get_field-set_field_self k new fs,
  λ j other. get_field-set_field_other k j new fs other,
)
set_path-get_path re condition new k (j ∷ ks) fs h =
    let (inner, e, found, rest) =
      set_path-get_path re condition new j ks (fields_of (get_field k fs)) h in
    (
      set_field k (obj inner) fs,
      rw (inner_of-fields_of (get_field k fs), e, set_path) refl,
      rw (get_field-set_field_self k (obj inner) fs) found,
      (
        λ i other. get_field-set_field_other k i (obj inner) fs other,
        rw (get_field-set_field_self k (obj inner) fs) rest,
      ),
    )
