-- ===== src/Parser/Properties.antt =====
-- wings/parser.py: `_update_properties`, which `_update_ini` is too, and `_matches_if_value`.
use pywings.Prelude.{
  ℕ, zero, suc, Bool, true, false, ◌&&◌, ◌||◌, Option, none, some, List, [], ◌∷◌, ◌++◌, drop, Text,
  lit, text_eq, is_empty, starts_with, strip, split_once, leb, ◌==◌, if◌then◌else◌,
}
use pywings.Prelude.Dict
use pywings.Prelude.Dict.{Dict}
use pywings.Json.{Json, str, arr, obj, Items, nil, cons, Fields, truthy}
use pywings.Json.Printed.{text_of}
use pywings.Result.{Result, ok, err, type_error, attribute_error, ◌>>=◌}
use pywings.Processes.Watch.{Regex}
use pywings.Parser.Values.{Replacement, replacement_of}

-- The ends of lines of str.splitlines().
unfoldable pub is_break : ℕ → Bool
is_break c = leb 10 c && leb c 13 || leb 28 c && leb c 30 || c == 133 || c == 8232 || c == 8233

-- Two characters for one end of a line.
unfoldable pub begins_pair : ℕ → Text → Bool
begins_pair c [] = false
begins_pair c (d ∷ s) = c == 13 && d == 10

unfoldable pub line_pieces : Text → Text × List Text
unfolding is_break begins_pair
line_pieces [] = ([], [])
line_pieces (c ∷ s) =
    let (w, ws) = line_pieces s in
    if begins_pair c s then (w, ws) else if is_break c then ([], w ∷ ws) else (c ∷ w, ws)

-- No line follows the last end.
unfoldable pub without_last : Text → List Text → List Text
without_last w [] = if is_empty w then [] else w ∷ []
without_last w (v ∷ vs) = w ∷ without_last v vs

-- content.splitlines()
unfoldable pub split_lines : Text → List Text
split_lines s = let (w, ws) = line_pieces s in without_last w ws

-- The key of a line that sets one.
unfoldable pub key_of : Text → Option Text
unfolding strip starts_with
key_of line =
    let stripped = strip line in
    if starts_with stripped (lit "#")
    then none
    else elim (split_once b'=' stripped) [ none ↦ none | some (k, v) ↦ some (strip k) ]

-- The last line of each key, by its number.
abbrev pub noted : ℕ → Option Text → Dict ℕ → Dict ℕ
noted n none props = props
noted n (some k) props = Dict.insert k n props

unfoldable pub index_from : ℕ → List Text → Dict ℕ → Dict ℕ
index_from n [] props = props
index_from n (line ∷ lines) props = index_from (suc n) lines (noted n (key_of line) props)

abbrev pub line_at : ℕ → List Text → Text
line_at n [] = []
line_at zero (l ∷ ls) = l
line_at (suc n) (l ∷ ls) = line_at n ls

abbrev pub set_line : ℕ → Text → List Text → List Text
set_line n new [] = []
set_line zero new (l ∷ ls) = new ∷ ls
set_line (suc n) new (l ∷ ls) = l ∷ set_line n new ls

-- curr_line.split("=", 1)[1].strip(), where there is one.
unfoldable pub current_value : Text → Text
unfolding strip
current_value line = elim (split_once b'=' line) [ none ↦ [] | some (k, v) ↦ strip v ]

-- `_matches_if_value`; a condition that is true and no text has no `startswith`.
unfoldable pub matches_if_value : Regex → Json → Text → Result Bool
unfolding truthy starts_with strip text_eq
matches_if_value re (str condition) current = ok (
    if is_empty condition
    then true
    else if starts_with condition (lit "regex:")
    then (elim (re.search (drop 6 condition)) [ none ↦ false | some found ↦ found current ])
    else text_eq (strip condition) (strip current))
matches_if_value re v current = if truthy v then err attribute_error else ok true

-- `props.get(match)`, for a key of any type: only a text is there, a list or an object is no key.
unfoldable pub position_of : Json → Dict ℕ → Result (Option ℕ)
position_of (str k) props = ok (Dict.lookup k props)
position_of (arr vs) props = err type_error
position_of (obj fs) props = err type_error
position_of v props = ok none

-- f"{match_key}={replace_with}"
abbrev pub setting : Json → Text → Text
setting match value = text_of match ++ (b'=' ∷ value)

abbrev pub set_if : ℕ → Text → List Text → Bool → List Text
set_if n line lines true = set_line n line lines
set_if n line lines false = lines

-- One round of the loop.
unfoldable pub replace_line : Regex → Dict ℕ → Replacement → List Text → Result (List Text)
unfolding truthy
replace_line re props r lines = do
  position ← position_of r.match props
  elim position [
    | some n ↦ do
      applies ← matches_if_value re r.if_value (current_value (line_at n lines))
      ok (set_if n (setting r.match r.replace_with) lines applies)
    | none ↦
        ok (if truthy r.if_value then lines else lines ++ (setting r.match r.replace_with ∷ []))
  ]

-- "\n".join(lines) + ("\n" if lines else "")
unfoldable pub join_lines : List Text → Text
join_lines [] = []
join_lines (l ∷ ls) = l ++ (10 ∷ join_lines ls)

module _ (re : Regex) (conf : Fields) (env : Dict Text) where
  unfoldable pub replace_lines : Dict ℕ → Items → List Text → Result (List Text)
  unfolding replace_line
  replace_lines props nil lines = ok lines
  replace_lines props (cons v vs) lines = do
    r ← replacement_of conf env v
    next ← replace_line re props r lines
    replace_lines props vs next

  -- `_update_properties`
  unfoldable pub update_properties : Text → Items → Result Text
  update_properties content vs = do
    let lines = split_lines content
    lines' ← replace_lines (index_from 0 lines []) vs lines
    ok (join_lines lines')
