-- ===== src/Oci/Layers.antt =====
-- Which layers a manifest has.
use pywings.Prelude.{
  ◌≡◌, refl, sym, ap, ◌∙◌, inl, inr, none, some, List, [], ◌∷◌, map, lit, arith, Option-cases,
}
use pywings.Json.{Json, null, arr, obj, str, int, Items, nil, cons, Fields, get_field, get_or_null}
use pywings.Result.{Result, ok, err, ◌>>=◌, >>=-eq-ok}
use pywings.Oci.Manifest.{
  Descriptor, Manifest, get_default, get_item, describe, int_of, has_digest, layers_of,
  parse_image_manifest, config_of, layers_in,
}
use pywings.Oci.Choice.{get_default-some}

-- The values under `digest` of the objects that have one.
unfoldable pub digests_of : Items → List Json
digests_of nil = []
digests_of (cons (obj fs) items) =
    let rest = digests_of items in
    elim (get_field (lit "digest") fs) [ none ↦ rest | some v ↦ v ∷ rest ]
digests_of (cons v items) = digests_of items

digest_in : Result Descriptor → Json
digest_in (err e) = null
digest_in (ok d) = d.digest

describe-digest :
    (media : Json) (fs : Fields) (platform v : Json) (d : Descriptor)
    → get_field (lit "digest") fs ≡ some v
    → describe media fs platform ≡ ok d
    → d.digest ≡ v
unfolding describe digest_in
describe-digest media fs platform v d there h =
    let (w, e, f) = >>=-eq-ok (get_item (lit "digest") fs) _ h in
    let (n, g, i) = >>=-eq-ok (int_of (get_default (lit "size") (int 0) fs)) _ f in
    let got : get_item (lit "digest") fs ≡ ok v = rw (there, get_item) refl in
    let made = ap digest_in i in cc

digests_of-present :
    (fs : Fields) (items : Items) (w : Json)
    → get_field (lit "digest") fs ≡ some w
    → digests_of (cons (obj fs) items) ≡ w ∷ digests_of items
unfolding digests_of
digests_of-present fs items w e = rw (e, digests_of) refl

layers_of-present :
    (fs : Fields) (items : Items) (w : Json)
    → get_field (lit "digest") fs ≡ some w
    → layers_of (cons (obj fs) items)
      ≡ (describe (str []) fs null >>= λ d. layers_of items >>= λ ds. ok (d ∷ ds))
unfolding layers_of has_digest
layers_of-present fs items w e = rw (e, layers_of, has_digest) refl

layers_of-digests :
    (items : Items) (ds : List Descriptor)
    → layers_of items ≡ ok ds
    → map (λ d. d.digest) ds ≡ digests_of items
unfolding layers_of digests_of has_digest
layers_of-digests nil ds h = let e : [] ≡ ds = cc in ap (map (λ d. d.digest)) (sym e)
layers_of-digests (cons (obj fs) items) ds h = elim (Option-cases (get_field (lit "digest") fs)) [
  | inl e ↦ ground (arith, layers_of-digests items ds)
  | inr (w, e) ↦
      let (d, e2, h2) =
        >>=-eq-ok (describe (str []) fs null) _ (sym (layers_of-present fs items w e) ∙ h) in
      let (es, e3, h3) = >>=-eq-ok (layers_of items) _ h2 in
      let same : d ∷ es ≡ ds = cc in
      ap (map (λ d. d.digest)) (sym same)
      ∙ ap (λ v. v ∷ map (λ d. d.digest) es) (describe-digest (str []) fs null w d e e2)
      ∙ ap (λ vs. w ∷ vs) (layers_of-digests items es e3)
      ∙ sym (digests_of-present fs items w e)
]
layers_of-digests (cons (str s) items) ds h = ground (arith, layers_of-digests items ds)
layers_of-digests (cons (arr vs) items) ds h = ground (arith, layers_of-digests items ds)
layers_of-digests (cons v items) ds h = ground arith

layers_given : Result Manifest → List Descriptor
layers_given (err e) = []
layers_given (ok m) = m.layers

-- A manifest that `parse_image_manifest` accepts has the layers that the JSON object lists, in their
-- order, those without a digest left out; each has the digest that stands there.
pub parse_image_manifest-layers :
    (fs : Fields) (items : Items) (m : Manifest)
    → get_field (lit "layers") fs ≡ some (arr items)
    → parse_image_manifest fs ≡ ok m
    → map (λ d. d.digest) m.layers ≡ digests_of items
unfolding parse_image_manifest layers_in layers_given
parse_image_manifest-layers fs items m listed h =
    let (version, e1, h1) = >>=-eq-ok (int_of (get_default (lit "schemaVersion") (int 2) fs)) _ h in
    let (config, e3, h3) = >>=-eq-ok (config_of (get_or_null (lit "config") fs)) _ h1 in
    let (ds, e4, h4) = >>=-eq-ok (layers_in (get_default (lit "layers") (arr nil) fs)) _ h3 in
    let read : layers_of items ≡ ok ds =
      ap layers_in (sym (get_default-some (lit "layers") (arr items) (arr nil) fs listed)) ∙ e4 in
    let same = ap layers_given h4 in
    ap (map (λ d. d.digest)) (sym same) ∙ layers_of-digests items ds read
