-- ===== src/Oci/Cutting.antt =====
-- What `parse` cuts an image into: a name without an at sign, and a tag or a digest.
use pywings.Prelude.{
  ◌≡◌, refl, inl, inr, true, false, Option, none, some, [], ◌∷◌, ◌++◌, Text, lit, has_char,
  starts_with, is_space, split_once, split_last, arith, Option-cases, Bool-cases,
}
use mathlib.Core.List.{reverse}
use pywings.Prelude.Strip.{IsLed, IsTrimmed, IsTrimmed-ends}
use pywings.Prelude.Splits.{has_char-append, split_once-eq, has_char-absent, split_last-eq}
use pywings.Result.{Result, ok, err}
use pywings.Oci.Reference.{latest, cut_tag, cut, default_tag}
use pywings.Oci.Canonical.{IsEnding, tagged, digested, end_of}

-- What `cut` finds out: the name, and behind it the tag or the digest that the reference will have.
pub record IsCut (name : Text) (tag digest : Option Text) : Type 0 where
  pub led : IsLed is_space name
  pub free : has_char b'@' name ≡ false
  pub ended : IsEnding (default_tag tag digest) digest
  pub trimmed : IsLed is_space (reverse (end_of (default_tag tag digest) digest).1)

latest-IsCut :
    (name : Text) → IsLed is_space name → has_char b'@' name ≡ false → IsCut name none none
unfolding has_char is_space
latest-IsCut name l f = record {
  led = l;
  free = f;
  ended = tagged latest refl refl refl refl;
  trimmed = refl;
}

tag-IsCut :
    (name t : Text)
    → has_char b'/' t ≡ false
    → has_char b':' t ≡ false
    → IsTrimmed (name ++ (b':' ∷ t))
    → has_char b'@' (name ++ (b':' ∷ t)) ≡ false
    → IsCut name (some t) none
unfolding has_char is_space
tag-IsCut name [] slash colon trim free = record {
  led = (IsTrimmed-ends name b':' [] trim).0;
  free = ground (arith, has_char-append b'@' name (b':' ∷ []));
  ended = tagged latest refl refl refl refl;
  trimmed = refl;
}
tag-IsCut name (c ∷ t) slash colon trim free = record {
  led = (IsTrimmed-ends name b':' (c ∷ t) trim).0;
  free = ground (arith, has_char-append b'@' name (b':' ∷ c ∷ t));
  ended =
      tagged (c ∷ t) refl slash colon (ground (arith, has_char-append b'@' name (b':' ∷ c ∷ t)));
  trimmed = (IsTrimmed-ends name b':' (c ∷ t) trim).1;
}

digest-IsCut :
    (name d : Text)
    → has_char b'@' name ≡ false
    → starts_with d (lit "sha256:") ≡ true
    → IsTrimmed (name ++ (b'@' ∷ d))
    → IsCut name none (some d)
unfolding starts_with
digest-IsCut name [] free sha trim = cc
digest-IsCut name (c ∷ d) free sha trim = record {
  led = (IsTrimmed-ends name b'@' (c ∷ d) trim).0;
  free = free;
  ended = digested (c ∷ d) sha;
  trimmed = (IsTrimmed-ends name b'@' (c ∷ d) trim).1;
}

cut_tag-IsCut :
    (image : Text)
    → IsTrimmed image
    → has_char b'@' image ≡ false
    → IsCut (cut_tag image).0 (cut_tag image).1 (cut_tag image).2
unfolding cut_tag
cut_tag-IsCut image trim free = elim (Option-cases (split_last b':' image)) [
  | inl e ↦ rw (e, cut_tag) (latest-IsCut image trim.front free)
  | inr ((name, t), e) ↦
      let (whole, colon) = split_last-eq b':' image name t e in
      elim (Bool-cases (has_char b'/' t)) [
        | inl slash ↦ rw (e, cut_tag, slash) (latest-IsCut image trim.front free)
        | inr slash ↦
            rw (e, cut_tag, slash)
              (tag-IsCut name t slash colon (rw (← whole) trim) (rw (← whole) free))
      ]
]

abbrev pub Holds : Result (Text × Option Text × Option Text) → Type 0
Holds (err e) = Unit
Holds (ok x) = IsCut x.0 x.1 x.2

pub cut-Holds : (image : Text) → IsTrimmed image → Holds (cut image)
unfolding cut
cut-Holds image trim = elim (Option-cases (split_once b'@' image)) [
  | inl e ↦ rw (e, cut) (cut_tag-IsCut image trim (has_char-absent b'@' image e))
  | inr ((name, d), e) ↦
      let (whole, free) = split_once-eq b'@' image name d e in
      elim (Bool-cases (starts_with d (lit "sha256:"))) [
        | inl sha ↦ rw (e, cut, sha) (digest-IsCut name d free sha (rw (← whole) trim))
        | inr sha ↦ rw (e, cut, sha) tt
      ]
]
