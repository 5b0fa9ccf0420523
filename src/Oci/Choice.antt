-- ===== src/Oci/Choice.antt =====
-- Which manifest of an index is taken.
use pywings.Prelude.{
  ◌≡◌, refl, sym, ap, ◌∙◌, Bool, true, false, Option, none, some, Text, lit, if◌then◌else◌,
}
use mathlib.Core.Path.{subst}
use pywings.Json.{Json, arr, obj, Items, nil, cons, Fields, get_field, truthy}
use pywings.Result.{Result, ok, ◌>>=◌, >>=-eq-ok}
use pywings.Oci.Manifest.{
  Descriptor, get_default, describe_item, is_for, is_linux, find, take_first, resolve_items,
  resolve_in, resolve_platform_manifest,
}

-- The first item that passes a test, all before it being objects that do not; and no such item.
pub data IsFirst (test : Fields → Result Bool) : Items → Fields → Type 0 where
  here : (fs : Fields) (items : Items) → test fs ≡ ok true → IsFirst test (cons (obj fs) items) fs
  later :
      (gs fs : Fields) (items : Items)
      → test gs ≡ ok false
      → IsFirst test items fs
      → IsFirst test (cons (obj gs) items) fs

pub data HasNone (test : Fields → Result Bool) : Items → Type 0 where
  empty : HasNone test nil
  without :
      (gs : Fields) (items : Items)
      → test gs ≡ ok false
      → HasNone test items
      → HasNone test (cons (obj gs) items)

module _ (test : Fields → Result Bool) where
  abbrev IsFound : Items → Option Fields → Type 0
  IsFound items none = HasNone test items
  IsFound items (some fs) = IsFirst test items fs

  find-IsFound : (items : Items) (o : Option Fields) → find test items ≡ ok o → IsFound items o
  unfolding find
  find-IsFound nil none h = empty
  find-IsFound nil (some fs) h = cc
  find-IsFound (cons (obj gs) items) o h =
      let (b, e, f) = >>=-eq-ok (test gs) _ h in step b o e f (find-IsFound items o)
    where
      step :
          (b : Bool) (o : Option Fields)
          → test gs ≡ ok b
          → (if b then ok (some gs) else find test items) ≡ ok o
          → (find test items ≡ ok o → IsFound items o)
          → IsFound (cons (obj gs) items) o
      step true none e f rest = cc
      step true (some fs) e f rest =
          let same : gs ≡ fs = cc in
          subst (IsFirst test (cons (obj gs) items)) same (here gs items e)
      step false none e f rest = without gs items e (rest f)
      step false (some fs) e f rest = later gs fs items e (rest f)
  find-IsFound (cons _ items) o h = cc

-- The manifest that an index gives: the first one for the platform; or, with none for it, the first one
-- for Linux; or, with none of these, the first of all.
pub data IsChosen (os arch : Text) (items : Items) (d : Descriptor) : Type 0 where
  matching :
      (fs : Fields)
      → IsFirst (is_for os arch) items fs
      → describe_item fs ≡ ok d
      → IsChosen os arch items d
  fallback :
      (fs : Fields)
      → HasNone (is_for os arch) items
      → IsFirst is_linux items fs
      → describe_item fs ≡ ok d
      → IsChosen os arch items d
  first :
      HasNone (is_for os arch) items
      → HasNone is_linux items
      → take_first items ≡ ok d
      → IsChosen os arch items d

resolve_items-IsChosen :
    (os arch : Text) (items : Items) (d : Descriptor)
    → resolve_items os arch items ≡ ok d
    → IsChosen os arch items d
unfolding resolve_items
resolve_items-IsChosen os arch items d h =
    let (o, e, f) = >>=-eq-ok (find (is_for os arch) items) _ h in
    choose o (find-IsFound (is_for os arch) items o e) f
  where
    last :
        (p : Option Fields)
        → HasNone (is_for os arch) items
        → IsFound is_linux items p
        → (elim p as (λ _. Result Descriptor) [
          | some fs ↦ describe_item fs
          | none ↦ take_first items
        ])
          ≡ ok d
        → IsChosen os arch items d
    last none n l f = first n l f
    last (some fs) n l f = fallback fs n l f

    choose :
        (o : Option Fields)
        → IsFound (is_for os arch) items o
        → (elim o as (λ _. Result Descriptor) [
          | some fs ↦ describe_item fs
          | none ↦ find is_linux items >>= λ p. elim p [
            | some fs ↦ describe_item fs
            | none ↦ take_first items
          ]
        ])
          ≡ ok d
        → IsChosen os arch items d
    choose (some fs) n f = matching fs n f
    choose none n f =
        let (p, e, g) = >>=-eq-ok (find is_linux items) _ f in
        last p n (find-IsFound is_linux items p e) g

resolve_in-IsChosen :
    (os arch : Text) (items : Items) (d : Descriptor)
    → resolve_in (arr items) os arch ≡ ok d
    → IsChosen os arch items d
unfolding resolve_in truthy
resolve_in-IsChosen os arch nil d h = cc
resolve_in-IsChosen os arch (cons v items) d h = resolve_items-IsChosen os arch (cons v items) d h

pub get_default-some :
    (k : Text) (v w : Json) (fs : Fields) → get_field k fs ≡ some v → get_default k w fs ≡ v
get_default-some k v w fs e = rw (e, get_default) refl

-- The manifest that `resolve_platform_manifest` returns for an index with a list of manifests is the
-- first one for the platform that is asked for; only where none is, the first one for Linux; and only
-- where there is none either, the first of all.
pub resolve_platform_manifest-IsChosen :
    (index : Fields) (os arch : Text) (items : Items) (d : Descriptor)
    → get_field (lit "manifests") index ≡ some (arr items)
    → resolve_platform_manifest index os arch ≡ ok d
    → IsChosen os arch items d
unfolding resolve_platform_manifest
resolve_platform_manifest-IsChosen index os arch items d listed h =
    resolve_in-IsChosen os arch items d (
      ap (λ v. resolve_in v os arch)
        (sym (get_default-some (lit "manifests") (arr items) (arr nil) index listed))
      ∙ h)
