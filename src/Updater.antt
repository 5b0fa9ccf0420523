-- ===== src/Updater.antt =====
-- wings/updater.py: the comparison of versions.
pub mod Versions
use pywings.Prelude.{
  ℕ, Bool, true, false, not, ◌&&◌, ◌||◌, Option, none, some, List, [], ◌∷◌, map, Text, split, strip,
  lstrip, is_empty, ltb, ◌==◌, if◌then◌else◌,
}
use pywings.Numbers.{Whole, plus, minus, int_text}

-- int(piece), or 0 for a piece that is no number.
unfoldable pub part : Text → Whole
part piece = elim (int_text piece) [ none ↦ plus 0 | some n ↦ n ]

-- v_str.strip().lstrip("vV"), up to the first dash and then to the first plus.
unfoldable pub base_of : Text → Text
base_of v_str =
    let clean = lstrip (λ c. c == b'v' || c == b'V') (strip v_str) in
    (split b'+' (split b'-' clean).0).0

-- `parse_version`; there is always a piece, so that the default of three zeros is never taken.
unfoldable pub parse_version : Text → List Whole
parse_version v_str = let pieces = split b'.' (base_of v_str) in part pieces.0 ∷ map part pieces.1

-- a < b of integers
unfoldable pub less : Whole → Whole → Bool
less (plus a) (plus b) = ltb a b
less (plus a) (minus b) = false
less (minus a) (plus b) = true
less (minus a) (minus b) = ltb b a

-- a > b of tuples
unfoldable pub is_greater : List Whole → List Whole → Bool
is_greater [] bs = false
is_greater (a ∷ as') [] = true
is_greater (a ∷ as') (b ∷ bs) =
    let rest = is_greater as' bs in if less b a then true else if less a b then false else rest

-- `check_update`, from the version that the repository has, if it can be read, and the local one.
unfoldable pub check_update : Option Text → Text → Bool × Text × Text
check_update none local_ver = (false, local_ver, local_ver)
check_update (some remote_ver) local_ver =
    if is_empty remote_ver
    then (false, local_ver, local_ver)
    else (is_greater (parse_version remote_ver) (parse_version local_ver), local_ver, remote_ver)
