-- ===== src/Oci/Cache.antt =====
-- wings/oci/cache.py: `ContentAddressableCache`, the blobs, manifests, configurations and root file
-- systems of images on the disk, by their digests.
use pywings.Prelude.{
  ℕ, Bool, true, false, Option, none, some, List, [], ◌∷◌, ◌++◌, Text, lit, split_once, starts_with,
  if◌then◌else◌,
}
use pywings.Json.{Json}
use pywings.Result.{ok, os_error}
use pywings.Filesystem.{
  Disk, directory, file, node_at, remove_tree, put, is_occupied, Outcome, refuse, make_dirs, parent,
  replace, and_then,
}
use pywings.Filesystem.Paths.{FilePath, parts}
use pywings.Filesystem.Copying.{stem_suffix, name_of}
use pywings.Parser.{Encoding}

-- `_clean_digest`
unfoldable pub clean_digest : Text → Text
unfolding split_once
clean_digest digest = elim (split_once b':' digest) [ none ↦ digest | some (a, b) ↦ b ]

-- directory / name, where a name that begins with a slash takes the place of all.
unfoldable pub joined : FilePath → Text → FilePath
unfolding starts_with
joined place name = if starts_with name (lit "/") then parts name else place ++ parts name

-- path.with_suffix(".tmp")
unfoldable pub temporary : FilePath → FilePath
temporary t = parent t ++ (((stem_suffix (name_of t)).0 ++ lit ".tmp") ∷ [])

-- A file opened for writing and written: it takes the place of a file or of nothing in a directory.
unfoldable pub write_file : FilePath → List ℕ → Disk → Outcome
write_file t bytes d = elim (node_at t d) [
  | some directory ↦ refuse os_error d
  | some (file c) ↦ (ok tt, put t (file bytes) d)
  | none ↦ elim (node_at (parent t) d) [
    | some directory ↦ (ok tt, put t (file bytes) d)
    | n ↦ refuse os_error d
  ]
]

-- json.dumps(…, indent=2) and json.loads; none is an exception.
pub record JsonText : Type 0 where
  pub dumps : Json → Text
  pub loads : Text → Option Json

module _ (base : FilePath) where
  abbrev pub store_directory : Text → FilePath
  store_directory kind = base ++ (kind ∷ lit "sha256" ∷ [])

  -- The directories that `__init__` makes.
  unfoldable pub open_cache : Disk → Outcome
  open_cache d = and_then (make_dirs [] (store_directory (lit "blobs")) d) λ d1.
      and_then (make_dirs [] (store_directory (lit "manifests")) d1) λ d2.
        and_then (make_dirs [] (store_directory (lit "configs")) d2)
          λ d3. make_dirs [] (store_directory (lit "rootfs")) d3

  -- `get_blob_path`
  unfoldable pub blob_path : Text → FilePath
  blob_path digest = joined (store_directory (lit "blobs")) (clean_digest digest)

  -- `has_blob`
  unfoldable pub has_blob : Text → Disk → Bool
  has_blob digest d = elim (node_at (blob_path digest) d) [
    | some (file (c ∷ bytes)) ↦ true
    | n ↦ false
  ]

  -- `store_blob`: the bytes go to a file beside, which then takes the name of the blob.
  unfoldable pub store_blob : Text → List ℕ → Disk → Outcome
  store_blob digest bytes d =
      let target = blob_path digest in
      and_then (write_file (temporary target) bytes d) (replace (temporary target) target)

  -- A JSON file by its digest.
  unfoldable pub record_path : Text → Text → FilePath
  record_path kind digest = joined (store_directory kind) (clean_digest digest ++ lit ".json")

  module _ (json : JsonText) (enc : Encoding) where
    unfoldable pub save_record : Text → Text → Json → Disk → Outcome
    save_record kind digest v = write_file (record_path kind digest) (enc.encode (json.dumps v))

    -- Where the file is there and can be read.
    unfoldable pub get_record : Text → Text → Disk → Option Json
    get_record kind digest d = elim (node_at (record_path kind digest) d) [
      | some (file bytes) ↦ json.loads (enc.decode bytes)
      | n ↦ none
    ]

    -- `save_manifest`, `get_manifest`, `save_config` and `get_config`
    abbrev pub save_manifest : Text → Json → Disk → Outcome
    save_manifest = save_record (lit "manifests")

    abbrev pub get_manifest : Text → Disk → Option Json
    get_manifest = get_record (lit "manifests")

    abbrev pub save_config : Text → Json → Disk → Outcome
    save_config = save_record (lit "configs")

    abbrev pub get_config : Text → Disk → Option Json
    get_config = get_record (lit "configs")

  -- `get_rootfs_path`
  unfoldable pub rootfs_path : Text → FilePath
  rootfs_path image = joined (store_directory (lit "rootfs")) (clean_digest image)

  -- `has_rootfs`
  unfoldable pub has_rootfs : Text → Disk → Bool
  has_rootfs image d = elim (node_at (rootfs_path image) d) [
    | some directory ↦ is_occupied (rootfs_path image) d
    | n ↦ false
  ]

  -- `clear_rootfs`
  unfoldable pub clear_rootfs : Text → Disk → Disk
  clear_rootfs image d = elim (node_at (rootfs_path image) d) [
    | some directory ↦ remove_tree (rootfs_path image) d
    | n ↦ d
  ]
