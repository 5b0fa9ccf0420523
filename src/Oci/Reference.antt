-- ===== src/Oci/Reference.antt =====
-- wings/oci/reference.py: `OciReference`, and the key of the cache in wings/oci/image.py.
use pywings.Prelude.{
  Bool, false, not, ◌||◌, Option, none, some, [], ◌∷◌, ◌++◌, Text, lit, text_eq, is_empty, has_char,
  starts_with, strip, Pieces, split, join, split_once, split_last, map, ◌==◌, ℕ, if◌then◌else◌,
}
use pywings.Result.{Result, ok, err, value_error, ◌>>=◌}

abbrev pub default_registry : Text
default_registry = lit "registry-1.docker.io"

abbrev pub latest : Text
latest = lit "latest"

-- `OciReference`
pub record Reference : Type 0 where
  pub registry : Text
  pub repository : Text
  pub tag : Option Text
  pub digest : Option Text

-- bool(value)
abbrev pub is_filled : Option Text → Bool
is_filled none = false
is_filled (some s) = not (is_empty s)

-- The name, the tag and the digest of an image without a digest. The last colon is behind the last
-- slash exactly if there is no slash behind it.
unfoldable pub cut_tag : Text → Text × Option Text × Option Text
cut_tag image = elim (split_last b':' image) [
  | none ↦ (image, none, none)
  | some (name, tag) ↦ if has_char b'/' tag then (image, none, none) else (name, some tag, none)
]

unfoldable pub cut : Text → Result (Text × Option Text × Option Text)
cut image = elim (split_once b'@' image) [
  | none ↦ ok (cut_tag image)
  | some (name, digest) ↦
      if starts_with digest (lit "sha256:")
      then ok (name, none, some digest)
      else err (value_error (lit "Invalid digest format"))
]

abbrev pub default_tag : Option Text → Option Text → Option Text
default_tag tag digest = if is_filled tag || is_filled digest then tag else some latest

unfoldable pub is_registry : Text → Bool
unfolding has_char text_eq
is_registry first =
    has_char b'.' first
    || has_char b':' first
    || text_eq first (lit "localhost")
    || text_eq first (lit "docker.io")

-- `docker.io` and `index.docker.io` are other names of the default registry.
unfoldable pub is_alias : Text → Bool
unfolding text_eq
is_alias registry = text_eq registry (lit "docker.io") || text_eq registry (lit "index.docker.io")

unfoldable pub normal : Text → Text
normal registry = if is_alias registry then default_registry else registry

-- The registry and the parts of the repository.
unfoldable pub locate : Pieces → Result (Text × Pieces)
locate (first, rest) =
    if is_registry first
    then (elim rest [
      | [] ↦ err (value_error (lit "Invalid image reference missing repository"))
      | part ∷ parts ↦ ok (normal first, (part, parts))
    ])
    else ok (default_registry, (first, rest))

unfoldable pub repository_of : Text → Pieces → Text
repository_of registry (part, []) =
    if text_eq registry default_registry then lit "library/" ++ part else part
repository_of registry (part, next ∷ parts) = join b'/' part (next ∷ parts)

-- From the parts to the reference.
unfoldable pub assemble : Option Text → Option Text → Text × Pieces → Reference
assemble tag digest (registry, parts) = record {
  registry = registry;
  repository = repository_of registry parts;
  tag = default_tag tag digest;
  digest = digest;
}

-- `parse`, of a text that is not empty and has no white space at its ends.
unfoldable pub parse_image : Text → Result Reference
parse_image image = do x ← cut image; place ← locate (split b'/' x.0); ok (assemble x.1 x.2 place)

unfoldable pub parse : Text → Result Reference
parse raw =
    if is_empty (strip raw)
    then err (value_error (lit "Image reference cannot be empty"))
    else parse_image (strip raw)

-- self.tag or DEFAULT_TAG
abbrev pub tag_or_latest : Reference → Text
tag_or_latest r = elim r.tag [ none ↦ latest | some t ↦ if is_empty t then latest else t ]

-- A separator and what stands behind it.
abbrev pub ending : Reference → ℕ × Text
ending r = elim r.digest [
  | none ↦ (b':', tag_or_latest r)
  | some d ↦ if is_empty d then (b':', tag_or_latest r) else (b'@', d)
]

unfoldable pub normalized_name : Reference → Text
normalized_name r = r.repository ++ ((ending r).0 ∷ (ending r).1)

-- `reference`
unfoldable pub lookup_name : Reference → Text
lookup_name r = (ending r).1

-- `__str__`
unfoldable pub show : Reference → Text
show r = (r.registry ++ (b'/' ∷ r.repository)) ++ ((ending r).0 ∷ (ending r).1)

-- The name of the cache's file for a reference: no slash, colon or at sign is left.
unfoldable pub ref_key : Reference → Text
unfolding normalized_name
ref_key r = map (λ c. if c == b'/' || c == b':' || c == b'@' then b'_' else c) (normalized_name r)
