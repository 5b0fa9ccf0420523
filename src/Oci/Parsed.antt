-- ===== src/Oci/Parsed.antt =====
-- What `parse` gives is canonical, and so a text of it is parsed to the same reference.
use pywings.Prelude.{
  ◌≡◌, refl, ap, ◌∙◌, inl, inr, true, false, Option, List, [], ◌∷◌, ◌++◌, Text, lit, text_eq,
  text_eq_iff, is_empty, has_char, strip, is_space, Pieces, split, join, arith, Bool-cases,
}
use mathlib.Core.Path.{subst}
use pywings.Prelude.Strip.{
  IsLed, IsTrimmed, strip-IsTrimmed, IsTrimmed-join, IsLed-append_left, IsLed-join,
}
use pywings.Prelude.Splits.{has_char-append, has_char-split, join-split}
use pywings.Result.{Result, ok, err, >>=-eq-ok}
use pywings.Oci.Reference.{
  Reference, default_registry, cut, default_tag, is_registry, is_alias, normal, locate,
  repository_of, assemble, parse, parse_image, show,
}
use pywings.Oci.Canonical.{IsPlace, IsCanonical, end_of, parse-show}
use pywings.Oci.Cutting.{IsCut, Holds, cut-Holds}

has_slash-library : (part : Text) → has_char b'/' (lit "library/" ++ part) ≡ true
unfolding has_char
has_slash-library part = refl

has_slash-join :
    (part next : Text) (parts : List Text) → has_char b'/' (join b'/' part (next ∷ parts)) ≡ true
unfolding join has_char
has_slash-join part next parts =
    ground (arith, has_char-append b'/' part (b'/' ∷ join b'/' next parts))

repository_of-scoped :
    (registry part : Text) (parts : List Text)
    → registry ≡ default_registry
    → has_char b'/' (repository_of registry (part, parts)) ≡ true
unfolding repository_of
repository_of-scoped registry part [] e =
    ground (arith, text_eq_iff registry default_registry, has_slash-library part)
repository_of-scoped registry part (next ∷ parts) e = has_slash-join part next parts

repository_of-free :
    (registry part : Text) (parts : List Text)
    → has_char b'@' (join b'/' part parts) ≡ false
    → has_char b'@' (repository_of registry (part, parts)) ≡ false
unfolding repository_of join has_char
repository_of-free registry part [] free = ground arith
repository_of-free registry part (next ∷ parts) free = free

parts-IsPlace :
    (registry part : Text) (parts : List Text)
    → is_registry registry ≡ true
    → is_alias registry ≡ false
    → has_char b'/' registry ≡ false
    → has_char b'@' registry ≡ false
    → has_char b'@' (join b'/' part parts) ≡ false
    → IsPlace registry (repository_of registry (part, parts))
unfolding has_char
parts-IsPlace registry part parts known own closed undigested free = record {
  known = known;
  own = own;
  closed = closed;
  undigested = ground (
    arith,
    has_char-append b'@' registry (b'/' ∷ repository_of registry (part, parts)),
    repository_of-free registry part parts free,
  );
  scoped = repository_of-scoped registry part parts;
}

abbrev IsLocated : Result (Text × Pieces) → Type 0
IsLocated (err e) = Unit
IsLocated (ok (registry, parts)) =
    IsPlace registry (repository_of registry parts) × IsLed is_space registry

default-IsLocated :
    (part : Text) (parts : List Text)
    → has_char b'@' (join b'/' part parts) ≡ false
    → IsLocated (ok (default_registry, (part, parts)))
unfolding is_registry is_alias has_char text_eq is_space
default-IsLocated part parts free =
    (parts-IsPlace default_registry part parts refl refl refl refl free, refl)

locate-IsLocated :
    (first : Text) (rest : List Text)
    → has_char b'/' first ≡ false
    → has_char b'@' (join b'/' first rest) ≡ false
    → IsLed is_space (join b'/' first rest)
    → IsLocated (locate (first, rest))
unfolding locate normal join has_char
locate-IsLocated first [] closed free led = elim (Bool-cases (is_registry first)) [
  | inl known ↦ rw (known, locate) tt
  | inr unknown ↦ rw (unknown, locate) (default-IsLocated first [] free)
]
locate-IsLocated first (part ∷ parts) closed free led =
    let both = has_char-append b'@' first (b'/' ∷ join b'/' part parts) in
    let later : has_char b'@' (join b'/' part parts) ≡ false = ground (arith, both) in
    elim (Bool-cases (is_registry first)) [
      | inr unknown ↦ rw (unknown, locate) (default-IsLocated first (part ∷ parts) free)
      | inl known ↦ elim (Bool-cases (is_alias first)) [
        | inl other ↦ rw (known, locate, other, normal) (default-IsLocated part parts later)
        | inr own ↦
            rw (known, locate, own, normal)
              (
                parts-IsPlace first part parts known own closed (ground (arith, both)) later,
                IsLed-append_left first (b'/' ∷ join b'/' part parts) led,
              )
      ]
    ]

end_of-gap : (tag digest : Option Text) → is_space (end_of tag digest).0 ≡ false
unfolding is_space
end_of-gap tag digest = ground arith

assemble-IsCanonical :
    (name registry : Text) (tag digest : Option Text) (parts : Pieces)
    → IsCut name tag digest
    → IsLocated (ok (registry, parts))
    → IsCanonical (assemble tag digest (registry, parts))
unfolding assemble show is_space
assemble-IsCanonical name registry tag digest parts c (place, led) = record {
  place = place;
  ended = c.ended;
  trimmed =
      IsTrimmed-join (registry ++ (b'/' ∷ repository_of registry parts))
        (end_of (default_tag tag digest) digest).0 (end_of (default_tag tag digest) digest).1
        (end_of-gap (default_tag tag digest) digest)
        (IsLed-join registry b'/' (repository_of registry parts) refl led) c.trimmed;
}

abbrev IsFine : Result Reference → Type 0
IsFine (err e) = Unit
IsFine (ok r) = IsCanonical r

parse_image-IsCanonical :
    (image : Text) (r : Reference) → IsTrimmed image → parse_image image ≡ ok r → IsCanonical r
unfolding parse_image
parse_image-IsCanonical image r trim h =
    let (x, e, h1) = >>=-eq-ok (cut image) _ h in
    let (place, f, h2) = >>=-eq-ok (locate (split b'/' x.0)) _ h1 in
    let c : IsCut x.0 x.1 x.2 = subst Holds e (cut-Holds image trim) in
    let l : IsLocated (ok place) = subst IsLocated f (
      locate-IsLocated (split b'/' x.0).0 (split b'/' x.0).1 (has_char-split b'/' x.0)
        (ap (has_char b'@') (join-split b'/' x.0) ∙ c.free) (rw (join-split b'/' x.0) c.led)) in
    subst IsFine h2 (assemble-IsCanonical x.0 place.0 x.1 x.2 place.1 c l)

-- A reference that `parse` accepts is canonical: its registry is one, is not an alias of the default
-- registry and holds no slash; a repository of the default registry has a slash; no at sign stands in
-- either; the reference has a tag without separators or a digest that begins with `sha256:`, and not
-- both; and its text has no white space at its ends.
pub parse-IsCanonical : (raw : Text) (r : Reference) → parse raw ≡ ok r → IsCanonical r
unfolding parse
parse-IsCanonical raw r h = elim (Bool-cases (is_empty (strip raw))) [
  | inl e ↦ ground arith
  | inr e ↦ parse_image-IsCanonical (strip raw) r (strip-IsTrimmed raw) (ground arith)
]

-- Every reference that `parse` accepts is read back from its own text: parsing what `str` gives for it
-- gives the same reference again, so that the text is a normal form of the image's name.
pub parse_idem : (raw : Text) (r : Reference) → parse raw ≡ ok r → parse (show r) ≡ ok r
parse_idem raw r h = parse-show r (parse-IsCanonical raw r h)
