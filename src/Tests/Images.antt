-- ===== src/Tests/Images.antt =====
-- References to images.
use pywings.Prelude.{
  ◌≡◌, refl, none, some, Text, lit, text_eq, has_char, starts_with, strip, split, split_once,
  split_last, join,
}
use pywings.Result.{ok}
use pywings.Oci.Reference.{
  Reference, parse, parse_image, cut, cut_tag, locate, assemble, normal, is_registry, is_alias,
  repository_of, show,
}
use pywings.Oci.Canonical.{IsCanonical}
use pywings.Oci.Parsed.{parse-IsCanonical, parse_idem}

abbrev ubuntu : Text
ubuntu = lit " docker.io/ubuntu:22.04 "

abbrev parsed : Reference
parsed = record {
  registry = lit "registry-1.docker.io";
  repository = lit "library/ubuntu";
  tag = some (lit "22.04");
  digest = none;
}

parse-ubuntu : parse ubuntu ≡ ok parsed
unfolding parse parse_image cut cut_tag locate assemble normal is_registry is_alias repository_of
    has_char text_eq strip split split_once split_last join starts_with
parse-ubuntu = refl

parse-IsCanonical_example : IsCanonical parsed
parse-IsCanonical_example = parse-IsCanonical ubuntu parsed parse-ubuntu

parse_idem_example : parse (show parsed) ≡ ok parsed
parse_idem_example = parse_idem ubuntu parsed parse-ubuntu
