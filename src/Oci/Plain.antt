-- ===== src/Oci/Plain.antt =====
-- Names of blobs in their directory (wings/oci/cache.py).
use pywings.Prelude.{
  ◌≡◌, ◌≢◌, refl, ap, sym, ◌∙◌, false, [], ◌∷◌, ◌++◌, length, length-append, take, Text, lit,
  is_empty, has_char, split, join, starts_with, text_eq, text_eq_refl, text_eq_iff, arith,
  Bool-cases, inl, inr,
}
use pywings.Prelude.Splits.{split-single, join-split, split_last-absent, has_char-append}
use pywings.Filesystem.{parent}
use pywings.Filesystem.Paths.{FilePath, is_under, parts, named}
use pywings.Filesystem.Copying.{stem_suffix, name_of}
use pywings.Oci.Cache.{joined, temporary}

-- A name of a file without dots, as the digits of a digest are.
pub record IsPlain (w : Text) : Type 0 where
  pub filled : is_empty w ≡ false
  pub slashless : has_char b'/' w ≡ false
  pub dotless : has_char b'.' w ≡ false

undotted : (w : Text) → has_char b'.' w ≡ false → text_eq w (lit ".") ≡ false
unfolding has_char
undotted w h = elim (Bool-cases (text_eq w (lit "."))) [
  | inl e ↦ cc (h, ap (has_char b'.') ((text_eq_iff w (lit ".")).0 e))
  | inr e ↦ e
]

parts-single : (w : Text) → IsPlain w → parts w ≡ w ∷ []
unfolding parts named join
parts-single w plain =
    let rest : (split b'/' w).1 ≡ [] = (split-single b'/' w).1 plain.slashless in
    let whole : (split b'/' w).0 ≡ w =
      sym (ap (join b'/' (split b'/' w).0) rest) ∙ join-split b'/' w in
    ap (named (split b'/' w).0) rest
    ∙ ap (λ v. named v []) whole
    ∙ rw (plain.filled, undotted w plain.dotless) refl

rootless : (w : Text) → has_char b'/' w ≡ false → starts_with w (lit "/") ≡ false
unfolding has_char starts_with
rootless [] h = refl
rootless (c ∷ w) h = ground arith

pub joined-single : (place : FilePath) (w : Text) → IsPlain w → joined place w ≡ place ++ (w ∷ [])
unfolding joined
joined-single place w plain =
    rw (rootless w plain.slashless, joined) (ap (λ p. place ++ p) (parts-single w plain))

take-append : (place rest : FilePath) → take (length place) (place ++ rest) ≡ place
take-append [] rest = refl
take-append (a ∷ place) rest = ap (λ p. a ∷ p) (take-append place rest)

pub parent-append : (place : FilePath) (w : Text) → parent (place ++ (w ∷ [])) ≡ place
parent-append place w =
    ap (λ n. take n (place ++ (w ∷ []))) (omega (arith, length-append place (w ∷ [])))
    ∙ take-append place (w ∷ [])

name_of-append : (place : FilePath) (w : Text) → name_of (place ++ (w ∷ [])) ≡ w
unfolding name_of
name_of-append [] w = refl
name_of-append (a ∷ []) w = refl
name_of-append (a ∷ b ∷ place) w = name_of-append (b ∷ place) w

stem-plain : (w : Text) → IsPlain w → (stem_suffix w).0 ≡ w
unfolding stem_suffix
stem-plain w plain = rw (split_last-absent b'.' w plain.dotless, stem_suffix) refl

pub temporary-single :
    (place : FilePath) (w : Text)
    → IsPlain w
    → temporary (place ++ (w ∷ [])) ≡ place ++ ((w ++ lit ".tmp") ∷ [])
unfolding temporary
temporary-single place w plain =
    ap (λ p. p ++ (((stem_suffix (name_of (place ++ (w ∷ [])))).0 ++ lit ".tmp") ∷ []))
      (parent-append place w)
    ∙ ap (λ n. place ++ (((stem_suffix n).0 ++ lit ".tmp") ∷ [])) (name_of-append place w)
    ∙ ap (λ n. place ++ ((n ++ lit ".tmp") ∷ [])) (stem-plain w plain)

-- Two names in the same directory.
pub siblings-apart :
    (place : FilePath) (v w : Text)
    → v ≢ w
    → is_under (place ++ (v ∷ [])) (place ++ (w ∷ [])) ≡ false
unfolding is_under
siblings-apart [] v w h = elim (Bool-cases (text_eq v w)) [
  | inl e ↦ absurd (h ((text_eq_iff v w).0 e))
  | inr e ↦ rw e refl
]
siblings-apart (a ∷ place) v w h = rw (text_eq_refl a) (siblings-apart place v w h)

pub above-apart : (place : FilePath) (v : Text) → is_under (place ++ (v ∷ [])) place ≡ false
unfolding is_under
above-apart [] v = refl
above-apart (a ∷ place) v = rw (text_eq_refl a) (above-apart place v)

-- A plain name is no name of a temporary file.
pub dotted : (v w : Text) → has_char b'.' w ≡ false → v ++ lit ".tmp" ≢ w
unfolding has_char
dotted v w h e = ground (arith, h, has_char-append b'.' v (lit ".tmp"), ap (has_char b'.') e)

pub differs : (v w : Text) → text_eq v w ≡ false → v ≢ w
differs v w h e = cc (h, text_eq_refl w, ap (λ x. text_eq x w) e)
