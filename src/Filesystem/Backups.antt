-- ===== src/Filesystem/Backups.antt =====
-- wings/filesystem.py: `create_backup`, the rules for what it leaves out and what its archive holds.
use pywings.Prelude.{
  Bool, not, ◌&&◌, ◌||◌, Option, none, some, List, [], ◌∷◌, ◌++◌, any, Text, lit, text_eq,
  starts_with, strip, is_empty, if◌then◌else◌,
}
use mathlib.Core.List.{reverse}
use pywings.Filesystem.{Disk, Node, file, node_at}
use pywings.Filesystem.Paths.{FilePath}
use pywings.Parser.{Encoding}
use pywings.Parser.Properties.{split_lines}

-- s.endswith(p)
unfoldable pub ends_with : Text → Text → Bool
ends_with s p = starts_with (reverse s) (reverse p)

-- A line that is a rule.
unfoldable pub is_rule : Text → Bool
is_rule line = not (is_empty line) && not (starts_with line (lit "#"))

-- The rules of a backup's settings.
unfoldable pub given_rules : List Text → List Text
given_rules [] = []
given_rules (line ∷ lines) =
    let rest = given_rules lines in if is_rule (strip line) then strip line ∷ rest else rest

-- The lines of `.pteroignore` come behind, where they are not there yet.
unfoldable pub add_rules : List Text → List Text → List Text
add_rules rules [] = rules
add_rules rules (line ∷ lines) =
    add_rules
      (if is_rule (strip line) && not (any (text_eq (strip line)) rules)
        then rules ++ (strip line ∷ [])
        else rules)
      lines

module _ (enc : Encoding) (root : FilePath) where
  unfoldable pub ignore_rules : Text → Disk → List Text
  ignore_rules ignore d = elim (node_at (root ++ (lit ".pteroignore" ∷ [])) d) [
    | some (file content) ↦
        add_rules (given_rules (split_lines ignore)) (split_lines (enc.decode content))
    | n ↦ given_rules (split_lines ignore)
  ]

-- The rule names the member, a directory above it, or the end of its name.
unfoldable pub is_matched : Text → Text → Bool
is_matched name rule =
    text_eq rule name || (starts_with name (rule ++ lit "/") || ends_with name (lit "/" ++ rule))

-- The names of the backups in an archive: those that no archive holds, and that of a transfer leaves out
-- what this transfer makes and what others bring.
unfoldable pub is_own : Text → Bool → Text → Bool
is_own backup_id is_transfer name =
    if is_transfer
    then text_eq name (lit "backups/" ++ (backup_id ++ lit ".tar.gz"))
      || (text_eq name (lit "backups/transfer-" ++ (backup_id ++ lit ".tar.gz"))
          || starts_with name (lit "backups/incoming-"))
    else text_eq name (lit "backups") || starts_with name (lit "backups/")

module _ (backup_id : Text) (is_transfer : Bool) (rules : List Text) where
  -- `filter_tar`: the member is taken.
  unfoldable pub filter_tar : Text → Bool
  filter_tar name = not (is_own backup_id is_transfer name) && not (any (is_matched name) rules)

  -- tar.add goes down from a name to the names below, as far as the filter takes each.
  unfoldable pub is_added : Text → List Text → Bool
  is_added name [] = filter_tar name
  is_added name (w ∷ ws) =
      let rest = is_added (name ++ (lit "/" ++ w)) ws in filter_tar name && rest

  -- The entries of the server's directory that are passed over.
  unfoldable pub is_skipped : Text → Bool
  is_skipped entry =
      text_eq entry (lit ".install") || (not is_transfer && text_eq entry (lit "backups"))

  -- What the archive holds under a name.
  unfoldable pub archived : FilePath → Disk → FilePath → Option Node
  archived root d [] = none
  archived root d (entry ∷ q) =
      if not (is_skipped entry) && is_added entry q then node_at (root ++ (entry ∷ q)) d else none
