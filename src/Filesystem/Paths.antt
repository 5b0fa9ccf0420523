-- ===== src/Filesystem/Paths.antt =====
-- Paths of wings/filesystem.py as lists of names, with what the program uses of `pathlib`.
use pywings.Prelude.{
  Bool, true, false, ◌&&◌, ◌||◌, List, [], ◌∷◌, ◌++◌, Text, lit, text_eq, is_empty, split, join,
  lstrip, starts_with, ◌==◌, if◌then◌else◌,
}

abbrev pub FilePath : Type 0
FilePath = List Text

-- a == b or a in b.parents
unfoldable pub is_under : FilePath → FilePath → Bool
is_under [] q = true
is_under (a ∷ p) [] = false
is_under (a ∷ p) (b ∷ q) = text_eq a b && is_under p q

unfoldable pub path_eq : FilePath → FilePath → Bool
path_eq p q = is_under p q && is_under q p

-- The names in a text: a `Path` has no empty name and no name that is a dot.
unfoldable pub named : Text → List Text → List Text
named w [] = if is_empty w || text_eq w (lit ".") then [] else w ∷ []
named w (v ∷ vs) =
    let rest = named v vs in if is_empty w || text_eq w (lit ".") then rest else w ∷ rest

unfoldable pub parts : Text → FilePath
parts s = named (split b'/' s).0 (split b'/' s).1

-- str(path) of a relative path.
unfoldable pub relative_text : FilePath → Text
relative_text [] = lit "."
relative_text (w ∷ ws) = join b'/' w ws

-- str(base / name), where `base` is relative: a name that begins with a slash takes its place.
unfoldable pub below : FilePath → Text → Text
below base name =
    if starts_with name (lit "/")
    then b'/' ∷ relative_text (parts name)
    else relative_text (base ++ parts name)

-- value.lstrip("/\\")
unfoldable pub unrooted : Text → Text
unrooted value = lstrip (λ c. c == b'/' || c == b'\\') value
