-- ===== src/Tests/Manifests.antt =====
-- An index with two manifests, and a manifest with a layer that has no digest.
use pywings.Prelude.{◌≡◌, refl, some, Text, lit, text_eq, lower, map, [], ◌∷◌}
use pywings.Numbers.{plus}
use pywings.Json.{
  Json, null, str, arr, obj, nil, cons, Items, Fields, end, field, get_field, get_or_null, truthy,
}
use pywings.Result.{ok}
use pywings.Oci.Manifest.{
  Descriptor, Manifest, describe, oci_manifest, int_of, lower_of, is_for, find, resolve_items,
  resolve_in, resolve_platform_manifest, has_digest, layers_of, layers_in, config_of,
  parse_image_manifest,
}
use pywings.Oci.Choice.{IsChosen, resolve_platform_manifest-IsChosen}
use pywings.Oci.Layers.{digests_of, parse_image_manifest-layers}

abbrev platform : Text → Json
platform arch =
    obj (field (lit "os") (str (lit "linux")) (field (lit "architecture") (str arch) end))

abbrev entry : Text → Text → Json
entry digest arch =
    obj (field (lit "digest") (str digest) (field (lit "platform") (platform arch) end))

abbrev manifests : Items
manifests =
    cons (entry (lit "sha256:a") (lit "amd64")) (cons (entry (lit "sha256:b") (lit "ARM64")) nil)

abbrev index : Fields
index = field (lit "manifests") (arr manifests) end

abbrev chosen : Descriptor
chosen = record {
  media_type = oci_manifest;
  digest = str (lit "sha256:b");
  size = plus 0;
  platform = platform (lit "ARM64");
}

listed : get_field (lit "manifests") index ≡ some (arr manifests)
unfolding get_field text_eq
listed = refl

resolved : resolve_platform_manifest index (lit "linux") (lit "arm64") ≡ ok chosen
unfolding resolve_platform_manifest resolve_in resolve_items find is_for lower_of lower describe
    int_of get_field text_eq truthy get_or_null
resolved = refl

resolve_platform_manifest-IsChosen_example : IsChosen (lit "linux") (lit "arm64") manifests chosen
resolve_platform_manifest-IsChosen_example =
    resolve_platform_manifest-IsChosen index (lit "linux") (lit "arm64") manifests chosen listed
      resolved

abbrev layers : Items
layers = cons (obj (field (lit "digest") (str (lit "sha256:c")) end)) (cons (obj end) nil)

abbrev manifest : Fields
manifest =
    field (lit "config") (obj (field (lit "digest") (str (lit "sha256:d")) end))
      (field (lit "layers") (arr layers) end)

abbrev bare : Text → Descriptor
bare digest = record { media_type = str []; digest = str digest; size = plus 0; platform = null }

abbrev parsed : Manifest
parsed = record {
  schema_version = plus 2;
  media_type = oci_manifest;
  config_descriptor = bare (lit "sha256:d");
  layers = bare (lit "sha256:c") ∷ [];
}

layered : get_field (lit "layers") manifest ≡ some (arr layers)
unfolding get_field text_eq
layered = refl

parse-manifest : parse_image_manifest manifest ≡ ok parsed
unfolding parse_image_manifest config_of layers_in layers_of has_digest describe int_of get_field
    text_eq truthy get_or_null
parse-manifest = refl

parse_image_manifest-layers_example : map (λ d. d.digest) parsed.layers ≡ digests_of layers
parse_image_manifest-layers_example =
    parse_image_manifest-layers manifest layers parsed layered parse-manifest
