-- ===== src/Oci/Canonical.antt =====
-- References in the form that `parse` gives them, and that `parse` reads back from their text.
use pywings.Prelude.{
  ◌≡◌, refl, sym, ap, ◌∙◌, true, false, Option, none, some, List, [], ◌∷◌, ◌++◌, Text, lit,
  text_eq_iff, is_empty, has_char, starts_with, Pieces, split, join, ℕ, arith,
}
use pywings.Prelude.Strip.{IsTrimmed, strip_trimmed}
use pywings.Prelude.Splits.{
  has_char-append, split_once-absent, split_once-append, split_last-append, split-append,
  join-split, split-single,
}
use pywings.Result.{ok, ◌>>=◌}
use pywings.Oci.Reference.{
  Reference, default_registry, cut_tag, cut, default_tag, is_registry, is_alias, normal, locate,
  repository_of, assemble, parse, parse_image, ending, show,
}

-- The registry is one, under its own name, and holds no separator.
pub record IsPlace (registry repository : Text) : Type 0 where
  pub known : is_registry registry ≡ true
  pub own : is_alias registry ≡ false
  pub closed : has_char b'/' registry ≡ false
  pub undigested : has_char b'@' (registry ++ (b'/' ∷ repository)) ≡ false
  -- A repository of the default registry has two parts at least.
  pub scoped : registry ≡ default_registry → has_char b'/' repository ≡ true

-- A tag with no separator, or a digest, but not both.
pub data IsEnding : Option Text → Option Text → Type 0 where
  tagged :
      (t : Text)
      → is_empty t ≡ false
      → has_char b'/' t ≡ false
      → has_char b':' t ≡ false
      → has_char b'@' t ≡ false
      → IsEnding (some t) none
  digested : (d : Text) → starts_with d (lit "sha256:") ≡ true → IsEnding none (some d)

-- The separator and what stands behind it, for a tag and a digest.
abbrev pub end_of : Option Text → Option Text → ℕ × Text
end_of tag digest = ending (record { registry = []; repository = []; tag = tag; digest = digest })

pub record IsCanonical (r : Reference) : Type 0 where
  pub place : IsPlace r.registry r.repository
  pub ended : IsEnding r.tag r.digest
  pub trimmed : IsTrimmed (show r)

cut_tag-append :
    (base t : Text)
    → has_char b'/' t ≡ false
    → has_char b':' t ≡ false
    → cut_tag (base ++ (b':' ∷ t)) ≡ (base, some t, none)
unfolding cut_tag
cut_tag-append base t slash colon = rw (split_last-append b':' base t colon, cut_tag, slash) refl

cut_undigested : (image : Text) → has_char b'@' image ≡ false → cut image ≡ ok (cut_tag image)
unfolding cut
cut_undigested image free = rw (split_once-absent b'@' image free, cut) refl

cut-place :
    (tag digest : Option Text) (base : Text)
    → IsEnding tag digest
    → has_char b'@' base ≡ false
    → cut (base ++ ((end_of tag digest).0 ∷ (end_of tag digest).1)) ≡ ok (base, tag, digest)
unfolding cut has_char starts_with
cut-place tag digest base (tagged t filled slash colon at) free = rw filled (
    cut_undigested (base ++ (b':' ∷ t)) (ground (arith, has_char-append b'@' base (b':' ∷ t)))
    ∙ ap ok (cut_tag-append base t slash colon))
cut-place tag digest base (digested [] sha) free = cc
cut-place tag digest base (digested (c ∷ d) sha) free =
    rw (split_once-append b'@' base (c ∷ d) free, cut, sha) refl

locate-cons :
    (first part : Text) (parts : List Text)
    → is_registry first ≡ true
    → is_alias first ≡ false
    → locate (first, part ∷ parts) ≡ ok (first, (part, parts))
unfolding locate normal
locate-cons first part parts known own = rw (known, locate, own, normal) refl

locate-place :
    (registry repository : Text)
    → IsPlace registry repository
    → locate (split b'/' (registry ++ (b'/' ∷ repository))) ≡ ok (registry, split b'/' repository)
locate-place registry repository p =
    ap locate (split-append b'/' registry repository p.closed)
    ∙ locate-cons registry (split b'/' repository).0 (split b'/' repository).1 p.known p.own

repository_of-split :
    (registry repository : Text)
    → IsPlace registry repository
    → repository_of registry (split b'/' repository) ≡ repository
unfolding repository_of join
repository_of-split registry repository p = go (split b'/' repository) refl
  where
    go : (ps : Pieces) → split b'/' repository ≡ ps → repository_of registry ps ≡ repository
    go (part, []) e =
        let one : part ≡ repository =
          ap (λ x. join b'/' x.0 x.1) (sym e) ∙ join-split b'/' repository in
        ground (
          arith,
          split-single b'/' repository,
          ap (λ x. x.1) e,
          p.scoped,
          text_eq_iff registry default_registry,
        )
    go (part, next ∷ parts) e = ap (λ x. join b'/' x.0 x.1) (sym e) ∙ join-split b'/' repository

default_tag-ending : (tag digest : Option Text) → IsEnding tag digest → default_tag tag digest ≡ tag
unfolding starts_with
default_tag-ending tag digest (tagged t filled slash colon at) = ground arith
default_tag-ending tag digest (digested [] sha) = cc
default_tag-ending tag digest (digested (c ∷ d) sha) = refl

assemble-place :
    (r : Reference)
    → IsPlace r.registry r.repository
    → IsEnding r.tag r.digest
    → assemble r.tag r.digest (r.registry, split b'/' r.repository) ≡ r
unfolding assemble
assemble-place r p e =
    rw (repository_of-split r.registry r.repository p, default_tag-ending r.tag r.digest e) refl

parse_image-show : (r : Reference) → IsCanonical r → parse_image (show r) ≡ ok r
unfolding parse_image show
parse_image-show r c =
    ap (λ x. x >>= λ x. locate (split b'/' x.0) >>= λ place. ok (assemble x.1 x.2 place))
      (cut-place r.tag r.digest (r.registry ++ (b'/' ∷ r.repository)) c.ended c.place.undigested)
    ∙ ap (λ x. x >>= λ place. ok (assemble r.tag r.digest place))
        (locate-place r.registry r.repository c.place)
    ∙ ap ok (assemble-place r c.place c.ended)

is_empty-append : (s : Text) (c : ℕ) (t : Text) → is_empty (s ++ (c ∷ t)) ≡ false
is_empty-append [] c t = refl
is_empty-append (d ∷ s) c t = refl

-- A canonical reference is read back from its text.
pub parse-show : (r : Reference) → IsCanonical r → parse (show r) ≡ ok r
unfolding parse
parse-show r c =
    let full : is_empty (show r) ≡ false =
      unfold show in
      is_empty-append (r.registry ++ (b'/' ∷ r.repository)) (ending r).0 (ending r).1 in
    rw (strip_trimmed (show r) c.trimmed, full) (parse_image-show r c)
