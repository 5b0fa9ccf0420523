-- ===== src/Oci/Refined.antt =====
-- The cache of blobs as a map from digests to bytes.
use pywings.Prelude.{
  ℕ, ◌≡◌, refl, ap, sym, ◌∙◌, true, false, Bool, Option, none, some, List, [], ◌∷◌, All, Text,
  text_eq, text_eq_iff, Bool-cases, inl, inr,
}
use pywings.Prelude.Dict
use pywings.Prelude.Dict.{Dict, lookup-insert}
use pywings.Result.{ok}
use pywings.Filesystem.{Disk, Node, directory, file, node_at}
use pywings.Filesystem.Paths.{FilePath}
use pywings.Oci.Cache.{clean_digest, joined, blob_path, has_blob, store_blob}
use pywings.Oci.Plain.{IsPlain, joined-single, differs}
use pywings.Oci.Stored.{
  blobs, blob, IsStore, d3, store_blob-moves, stored-IsStore, target_after, plain_after,
}

-- The blobs one after the other.
unfoldable pub store_all : FilePath → List (Text × List ℕ) → Disk → Disk
store_all base [] d = d
store_all base ((digest, bytes) ∷ ops) d = store_all base ops (store_blob base digest bytes d).1

-- The same of a map.
unfoldable pub insert_all : List (Text × List ℕ) → Dict (List ℕ) → Dict (List ℕ)
insert_all [] m = m
insert_all ((digest, bytes) ∷ ops) m = insert_all ops (Dict.insert (clean_digest digest) bytes m)

abbrev pub content_of : Option Node → Option (List ℕ)
content_of (some (file bytes)) = some bytes
content_of n = none

abbrev pub is_filled : Option (List ℕ) → Bool
is_filled (some (b ∷ bytes)) = true
is_filled o = false

-- The disk holds what the map holds, under each plain digest.
pub record Refines (base : FilePath) (d : Disk) (m : Dict (List ℕ)) : Type 0 where
  pub store : IsStore base d
  pub holds : (w : Text) → IsPlain w → content_of (node_at (blob base w) d) ≡ Dict.lookup w m

module _ (base : FilePath) where
  store_blob-Refines :
      (digest : Text) (bytes : List ℕ) (d : Disk) (m : Dict (List ℕ))
      → IsPlain (clean_digest digest)
      → Refines base d m
      → Refines base (store_blob base digest bytes d).1 (Dict.insert (clean_digest digest) bytes m)
  store_blob-Refines digest bytes d m plain r =
      let w = clean_digest digest in
      let last = d3 base w plain bytes d r.store in
      let moved : store_blob base digest bytes d ≡ (ok tt, last) =
        store_blob-moves base w plain bytes d r.store digest refl in
      rw moved (record {
        store = stored-IsStore base w plain bytes d r.store;
        holds = λ v other. elim (Bool-cases (text_eq w v)) [
          | inl e ↦
              ap (λ x. content_of (node_at (blob base x) last)) (sym ((text_eq_iff w v).0 e))
              ∙ ap content_of (target_after base w plain bytes d r.store)
              ∙ sym (lookup-insert w v bytes m ∙ rw e refl)
          | inr e ↦
              ap content_of
                (plain_after base w plain bytes d r.store v other (λ k. differs w v e (sym k)))
              ∙ r.holds v other
              ∙ sym (lookup-insert w v bytes m ∙ rw e refl)
        ];
      })

  filled :
      (o : Option Node)
      → (elim o [ some (file (c ∷ bytes)) ↦ true | n ↦ false ]) ≡ is_filled (content_of o)
  filled none = refl
  filled (some directory) = refl
  filled (some (file [])) = refl
  filled (some (file (c ∷ bytes))) = refl

  has_blob-Refines :
      (digest : Text) (d : Disk) (m : Dict (List ℕ))
      → IsPlain (clean_digest digest)
      → Refines base d m
      → has_blob base digest d ≡ is_filled (Dict.lookup (clean_digest digest) m)
  unfolding has_blob blob_path
  has_blob-Refines digest d m plain r =
      filled (node_at (joined (blobs base) (clean_digest digest)) d)
      ∙ ap (λ p. is_filled (content_of (node_at p d)))
          (joined-single (blobs base) (clean_digest digest) plain)
      ∙ ap is_filled (r.holds (clean_digest digest) plain)

  -- The cache of blobs implements a map from digests to bytes. Where the directory of the blobs is there,
  -- no directory has the name of a blob or of its temporary file, and the disk holds what a map holds:
  -- after any blobs are stored whose digests are plain names without dots, that is so again of the map
  -- with the bytes inserted one after the other under the digests without their algorithm; and
  -- `has_blob` says of each digest of a plain name whether the map has bytes for it, at least one.
  pub store_all-Refines :
      (ops : List (Text × List ℕ)) (d : Disk) (m : Dict (List ℕ))
      → All (λ op. IsPlain (clean_digest op.0)) ops
      → Refines base d m
      → Refines base (store_all base ops d) (insert_all ops m)
        × ((digest : Text)
            → IsPlain (clean_digest digest)
            → has_blob base digest (store_all base ops d)
              ≡ is_filled (Dict.lookup (clean_digest digest) (insert_all ops m)))
  unfolding store_all insert_all
  store_all-Refines [] d m plain r = (r, λ digest k. has_blob-Refines digest d m k r)
  store_all-Refines ((digest, bytes) ∷ ops) d m plain r =
      store_all-Refines ops (store_blob base digest bytes d).1
        (Dict.insert (clean_digest digest) bytes m) plain.1
        (store_blob-Refines digest bytes d m plain.0 r)
