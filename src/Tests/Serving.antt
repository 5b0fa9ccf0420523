-- ===== src/Tests/Serving.antt =====
-- Runs of the types and of the backups of files.
use pywings.Prelude.{
  ◌≡◌, refl, Option, none, some, List, [], ◌∷◌, Text, lit, text_eq, lower, lower_char, split_last,
  starts_with, ◌↔◌, false,
}
use pywings.Filesystem.{Disk, Node, directory, file, node_at}
use pywings.Filesystem.Paths.{FilePath, is_under, path_eq}
use pywings.Filesystem.Copying.{name_of, stem_suffix}
use pywings.Filesystem.Mime.{detect_mime, file_type, text_type, among}
use pywings.Filesystem.Backups.{
  archived, is_skipped, is_added, filter_tar, is_own, is_matched, ends_with,
}
use pywings.Filesystem.Selected.{IsTaken, archived_iff}
use pywings.Filesystem.Editable.{Verdict, detect_mime-Verdict}

abbrev script : FilePath
script = lit "one" ∷ lit "Run.SH" ∷ []

abbrev files : Disk
files = (lit "one" ∷ [], directory) ∷ (script, file (35 ∷ 33 ∷ [])) ∷ []

detect_mime_run : detect_mime (λ w. none) script files ≡ lit "application/x-sh"
unfolding detect_mime node_at path_eq is_under text_eq name_of file_type stem_suffix split_last
    lower lower_char among text_type
detect_mime_run = refl

detect_mime-Verdict_example :
    Verdict (λ w. none) (lit "Run.SH") (35 ∷ 33 ∷ []) (detect_mime (λ w. none) script files)
unfolding node_at path_eq is_under text_eq name_of
detect_mime-Verdict_example = detect_mime-Verdict (λ w. none) script (35 ∷ 33 ∷ []) files refl

abbrev stored : Disk
stored =
    (lit "one" ∷ [], directory)
    ∷ (lit "one" ∷ lit "logs" ∷ [], directory)
    ∷ (lit "one" ∷ lit "logs" ∷ lit "a.txt" ∷ [], file (7 ∷ []))
    ∷ (lit "one" ∷ lit "world" ∷ [], file (8 ∷ []))
    ∷ (lit "one" ∷ lit "backups" ∷ [], directory)
    ∷ []

-- A rule leaves out what is below the directory that it names, a rule that ends in a slash nothing.
abbrev held : List Text → List Text → Option Node
held rules q = archived (lit "x") false rules (lit "one" ∷ []) stored q

archived_run :
    (held (lit "logs" ∷ []) (lit "logs" ∷ lit "a.txt" ∷ []) ≡ none)
    × (held (lit "logs" ∷ []) (lit "world" ∷ []) ≡ some (file (8 ∷ [])))
    × (held [] (lit "backups" ∷ []) ≡ none)
    × (held (lit "logs/" ∷ []) (lit "logs" ∷ lit "a.txt" ∷ []) ≡ some (file (7 ∷ [])))
unfolding archived is_skipped is_added filter_tar is_own is_matched ends_with starts_with text_eq
    node_at path_eq is_under
archived_run = (refl, refl, refl, refl)

archived_iff_example :
    (archived (lit "x") false (lit "logs" ∷ []) (lit "one" ∷ []) stored (lit "world" ∷ [])
      ≡ some (file (8 ∷ [])))
    ↔ ((node_at (lit "one" ∷ lit "world" ∷ []) stored ≡ some (file (8 ∷ [])))
        × IsTaken (lit "x") false (lit "logs" ∷ []) (lit "world") [])
archived_iff_example =
    archived_iff (lit "x") false (lit "logs" ∷ []) (lit "one" ∷ []) stored (lit "world") []
      (file (8 ∷ []))
