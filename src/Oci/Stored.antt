-- ===== src/Oci/Stored.antt =====
-- The cache of blobs as a map from digests to bytes.
use pywings.Prelude.{
  ℕ, ◌≡◌, ◌≢◌, refl, ap, sym, ◌∙◌, false, Option, none, some, List, [], ◌∷◌, ◌++◌, Text, lit,
  text_eq, text_eq_iff, arith, Bool-cases, Option-cases, inl, inr,
}
use pywings.Result.{ok}
use pywings.Filesystem.{
  Disk, Node, directory, file, node_at, remove_tree, put, relocate, replace, replace_node, and_then,
}
use pywings.Filesystem.Paths.{FilePath, is_under, path_eq}
use pywings.Filesystem.Prefixes.{is_under_refl, node_at-remove_tree, node_at-relocate}
use pywings.Filesystem.Moved.{node_at-relocate_source, node_at-relocate_destination}
use pywings.Filesystem.Copied.{append-cancel_right}
use pywings.Oci.Plain.{
  IsPlain, joined-single, parent-append, temporary-single, siblings-apart, above-apart, dotted,
  differs,
}
use pywings.Oci.Cache.{
  clean_digest, joined, temporary, write_file, store_directory, blob_path, store_blob,
}

module _ (base : FilePath) where
  abbrev pub blobs : FilePath
  blobs = store_directory base (lit "blobs")

  abbrev pub blob : Text → FilePath
  blob w = blobs ++ (w ∷ [])

  -- The directory of the blobs is there, and no directory has the name of a blob or of its temporary
  -- file.
  pub record IsStore (d : Disk) : Type 0 where
    pub place : node_at blobs d ≡ some directory
    pub blob_free : (w : Text) → IsPlain w → node_at (blob w) d ≢ some directory
    pub temporary_free :
        (w : Text) → IsPlain w → node_at (blob (w ++ lit ".tmp")) d ≢ some directory

  write_file-put :
      (w : Text) (bytes : List ℕ) (d : Disk)
      → node_at (blob w) d ≢ some directory
      → node_at blobs d ≡ some directory
      → write_file (blob w) bytes d ≡ (ok tt, put (blob w) (file bytes) d)
  unfolding write_file
  write_file-put w bytes d h k = elim (Option-cases (node_at (blob w) d)) [
    | inl e ↦ rw (e, parent-append blobs w, k, write_file) refl
    | inr (directory, e) ↦ absurd (h e)
    | inr (file c, e) ↦ rw (e, write_file) refl
  ]

  -- The move of the temporary file to the name of the blob.
  module _ (w : Text) (plain : IsPlain w) (bytes : List ℕ) (d : Disk) (store : IsStore d) where
    abbrev pub t : FilePath
    t = blob w

    abbrev pub s : FilePath
    s = blob (w ++ lit ".tmp")

    abbrev pub d1 : Disk
    d1 = put s (file bytes) d

    abbrev pub d3 : Disk
    d3 = relocate s t (remove_tree t d1)

    s_t : is_under s t ≡ false
    s_t = siblings-apart blobs (w ++ lit ".tmp") w (dotted w w plain.dotless)

    t_s : is_under t s ≡ false
    t_s = siblings-apart blobs w (w ++ lit ".tmp") (λ e. dotted w w plain.dotless (sym e))

    node_at-put_self : node_at s d1 ≡ some (file bytes)
    unfolding node_at path_eq
    node_at-put_self = ground (arith, is_under_refl s)

    node_at-put_other : (q : FilePath) → is_under s q ≡ false → node_at q d1 ≡ node_at q d
    unfolding node_at path_eq
    node_at-put_other q h = ground (arith, h)

    taken :
        (o : Option Node) → o ≢ some directory → replace_node s t (file bytes) o d1 ≡ (ok tt, d3)
    unfolding replace_node
    taken none h = refl
    taken (some directory) h = absurd (h refl)
    taken (some (file c)) h = refl

    replaced : replace s t d1 ≡ (ok tt, d3)
    unfolding replace path_eq
    replaced =
        rw (s_t, replace, path_eq)
          (rw node_at-put_self (
            taken (node_at t d1)
              (λ e. store.blob_free w plain (sym (node_at-put_other t s_t) ∙ e))))

    -- The three places of the directory after the move.
    pub target_after : node_at t d3 ≡ some (file bytes)
    target_after =
        node_at-relocate_destination s t (remove_tree t d1)
          (node_at-remove_tree t t d1 ∙ rw (is_under_refl t) refl)
        ∙ node_at-remove_tree t s d1
        ∙ rw t_s node_at-put_self

    source_after : node_at s d3 ≡ none
    source_after = node_at-relocate_source s t (remove_tree t d1) t_s

    other_after :
        (q : FilePath) → is_under s q ≡ false → is_under t q ≡ false → node_at q d3 ≡ node_at q d
    other_after q h k =
        node_at-relocate s t q (remove_tree t d1) h k
        ∙ node_at-remove_tree t q d1
        ∙ rw k (node_at-put_other q h)

    -- Another plain name, or its temporary file, is neither of the two.
    pub plain_after : (v : Text) → IsPlain v → v ≢ w → node_at (blob v) d3 ≡ node_at (blob v) d
    plain_after v other h =
        other_after (blob v) (siblings-apart blobs (w ++ lit ".tmp") v (dotted w v other.dotless))
          (siblings-apart blobs w v (λ e. h (sym e)))

    temporary_after :
        (v : Text)
        → IsPlain v
        → v ≢ w
        → node_at (blob (v ++ lit ".tmp")) d3 ≡ node_at (blob (v ++ lit ".tmp")) d
    temporary_after v other h =
        other_after (blob (v ++ lit ".tmp"))
          (siblings-apart blobs (w ++ lit ".tmp") (v ++ lit ".tmp")
            (λ e. h (sym (append-cancel_right (lit ".tmp") w v e))))
          (siblings-apart blobs w (v ++ lit ".tmp") (λ e. dotted v w plain.dotless (sym e)))

    pub stored-IsStore : IsStore d3
    stored-IsStore = record {
      place =
          other_after blobs (above-apart blobs (w ++ lit ".tmp")) (above-apart blobs w)
          ∙ store.place;
      blob_free = λ v other e. elim (Bool-cases (text_eq v w)) [
        | inl same ↦ cc (target_after, ap (λ x. node_at (blob x) d3) ((text_eq_iff v w).0 same), e)
        | inr apart ↦ store.blob_free v other (sym (plain_after v other (differs v w apart)) ∙ e)
      ];
      temporary_free = λ v other e. elim (Bool-cases (text_eq v w)) [
        | inl same ↦ cc (
          source_after,
          ap (λ x. node_at (blob (x ++ lit ".tmp")) d3) ((text_eq_iff v w).0 same),
          e,
        )
        | inr apart ↦
            store.temporary_free v other (sym (temporary_after v other (differs v w apart)) ∙ e)
      ];
    }

    -- What `store_blob` does where the digest is plain.
    pub store_blob-moves :
        (digest : Text) → clean_digest digest ≡ w → store_blob base digest bytes d ≡ (ok tt, d3)
    unfolding store_blob blob_path and_then
    store_blob-moves digest e =
        let here : joined blobs (clean_digest digest) ≡ t =
          ap (joined blobs) e ∙ joined-single blobs w plain in
        let beside : temporary t ≡ s = temporary-single blobs w plain in
        let written =
          write_file-put (w ++ lit ".tmp") bytes d (store.temporary_free w plain) store.place in
        rw (here, beside, written) replaced
