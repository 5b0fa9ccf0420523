-- ===== src/Tests/Signing.antt =====
-- Runs of the authorization of requests to registries.
use pywings.Prelude.{
  ◌≡◌, refl, Option, some, List, [], ◌∷◌, Text, lit, text_eq, lower, lower_char, All, strip, lstrip,
  is_space, split_once,
}
use pywings.Prelude.Dict
use pywings.Oci.Auth.{Auth, Credentials, parse_challenge, scan, advance, is_word}
use pywings.Oci.Authorized.{Request, store, ask, headers, IsOwn, headers-IsOwn}

abbrev fetch : Text → Text → Text → Option Credentials → Option Text
fetch realm service scope creds = some (lit "t")

abbrev challenge : Text
challenge = lit "Bearer realm=\"https://a/t\",service=\"r\""

abbrev empty_auth : Auth
empty_auth = record { credentials = []; tokens = [] }

abbrev requests : List Request
requests =
    store (lit "R") (lit "r") (lit "pw")
    ∷ ask (lit "r") (lit "a/b") [] (lit "pull") 0
    ∷ ask (lit "r") (lit "a/b") challenge (lit "pull") 5
    ∷ ask (lit "r") (lit "a/b") [] (lit "pull") 100
    ∷ []

parse_challenge_run :
    parse_challenge challenge
    ≡ (lit "Bearer", (lit "realm", lit "https://a/t") ∷ (lit "service", lit "r") ∷ [])
unfolding parse_challenge scan advance is_word strip lstrip is_space split_once Dict.insert text_eq
parse_challenge_run = refl

-- Here the user of a registry has the registry's name.
headers-IsOwn_example :
    All
      (λ (registry, header). IsOwn fetch (λ r creds. creds.0 ≡ r) registry header)
      (headers fetch requests empty_auth)
unfolding lower lower_char Dict.lookup
headers-IsOwn_example =
    headers-IsOwn fetch (λ r creds. creds.0 ≡ r) requests empty_auth (refl, (tt, (tt, (tt, tt))))
      (record { credentials = λ r. tt; tokens = tt })
