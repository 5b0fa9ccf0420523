-- ===== src/Json.antt =====
-- JSON values as Python reads them: what json.loads, yaml.safe_load and the Panel client return.
-- Numbers are integers, `neg n` is -(n + 1).
pub mod Printed
use pywings.Prelude.{
  ℕ, zero, suc, Bool, true, false, not, Option, none, some, Text, text_eq, is_empty, if◌then◌else◌,
}

mutual
  pub data Json : Type 0 where
    null : Json
    bool : Bool → Json
    int : ℕ → Json
    neg : ℕ → Json
    str : Text → Json
    arr : Items → Json
    obj : Fields → Json

  pub data Items : Type 0 where
    nil : Items
    cons : Json → Items → Items

  pub data Fields : Type 0 where
    end : Fields
    field : Text → Json → Fields → Fields

-- d.get(k) of a dict.
unfoldable pub get_field : Text → Fields → Option Json
get_field k end = none
get_field k (field j v fs) = if text_eq j k then some v else get_field k fs

-- d[k] = v
unfoldable pub set_field : Text → Json → Fields → Fields
set_field k v end = field k v end
set_field k v (field j w fs) = if text_eq j k then field j v fs else field j w (set_field k v fs)

-- d.update(e)
unfoldable pub update_fields : Fields → Fields → Fields
unfolding set_field
update_fields d end = d
update_fields d (field k v e) = update_fields (set_field k v d) e

-- bool(v)
unfoldable pub truthy : Json → Bool
truthy null = false
truthy (bool b) = b
truthy (int zero) = false
truthy (int (suc n)) = true
truthy (neg n) = true
truthy (str s) = not (is_empty s)
truthy (arr nil) = false
truthy (arr (cons v vs)) = true
truthy (obj end) = false
truthy (obj (field k v fs)) = true

-- d.get(k), with None for a missing key.
unfoldable pub get_or_null : Text → Fields → Json
unfolding get_field
get_or_null k fs = elim (get_field k fs) [ none ↦ null | some v ↦ v ]

-- a or b
abbrev pub or_else : Json → Json → Json
or_else a b = if truthy a then a else b
