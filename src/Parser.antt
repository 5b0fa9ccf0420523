-- ===== src/Parser.antt =====
-- wings/parser.py: `ConfigParser`, which writes the values of an egg into the configuration files of a
-- server before a boot.
pub mod Values
pub mod Properties
pub mod Trees
pub mod Lines
pub mod Restored
pub mod Settings
pub mod Nested
pub mod Updated
use pywings.Prelude.{
  ℕ, Bool, true, false, ◌||◌, Option, none, some, List, [], ◌∷◌, ◌++◌, Text, lit, text_eq, is_empty,
  has_text, starts_with, if◌then◌else◌,
}
use pywings.Prelude.Dict.{Dict}
use pywings.Prelude.Patterns.{replace_all}
use pywings.Json.{
  Json, null, str, arr, obj, Items, nil, cons, Fields, get_field, get_or_null, truthy, or_else,
}
use pywings.Result.{Result, ok, err, type_error, os_error, Error, ◌>>=◌}
use pywings.Filesystem.{
  Disk, Node, directory, file, node_at, put, Outcome, make_dirs, parent, and_then,
}
use pywings.Filesystem.Paths.{FilePath, is_under, parts}
use pywings.Processes.Config.{sub}
use pywings.Processes.Ports.{get_or}
use pywings.Processes.Watch.{Regex}
use Values.{Replacement, replacement_of, text_or_error}
use Properties.{update_properties}
use Trees.{Formats, update_json, update_yaml}

-- `_update_text`, one round of the loop; `content` is the file as it was.
unfoldable pub replace_text : Text → Replacement → Text → Result Text
unfolding truthy has_text
replace_text content r result = do
  old ← text_or_error r.match
  condition ← (if truthy r.if_value then text_or_error r.if_value else ok [])
  ok (
      if is_empty old
      then result
      else if has_text condition content
      then replace_all old r.replace_with 0 result
      else result)

module _ (conf : Fields) (env : Dict Text) where
  unfoldable pub update_text_from : Text → Items → Text → Result Text
  update_text_from content nil result = ok result
  update_text_from content (cons v vs) result = do
    r ← replacement_of conf env v
    next ← replace_text content r result
    update_text_from content vs next

  unfoldable pub update_text : Text → Items → Result Text
  update_text content vs = update_text_from content vs content

  -- The parser's name picks the way to update.
  unfoldable pub updated : Regex → Formats → Json → Text → Items → Result Text
  unfolding text_eq
  updated re formats (str kind) content vs =
      if text_eq kind (lit "properties") || text_eq kind (lit "ini")
      then update_properties re conf env content vs
      else if text_eq kind (lit "json")
      then update_json re formats conf env content vs
      else if text_eq kind (lit "yaml") || text_eq kind (lit "yml")
      then update_yaml re formats conf env content vs
      else update_text content vs
  updated re formats kind content vs = update_text content vs

-- A file that is not there is made, but not for the parsers of plain text; a parser that is a list or
-- an object is in no set.
pub data Missing : Type 0 where
  skipped made refused : Missing

unfoldable pub missing_file : Json → Missing
unfolding text_eq
missing_file (str kind) =
    if text_eq kind (lit "file") || text_eq kind (lit "text") then skipped else made
missing_file (arr vs) = refused
missing_file (obj fs) = refused
missing_file v = made

-- The bytes of a text and back, by UTF-8; a decoder puts a mark for what it cannot read.
pub record Encoding : Type 0 where
  pub encode : Text → List ℕ
  pub decode : List ℕ → Text

-- `_update_file`, of what a file holds; an exception leaves it as it is.
abbrev pub write_back : Encoding → FilePath → Text → Result Text → Disk → Disk
write_back enc t content (err e) d = d
write_back enc t content (ok new) d =
    if text_eq new content then d else put t (file (enc.encode new)) d

abbrev pub kept_of : Outcome → Disk
kept_of (o, d) = d

module _ (re : Regex) (formats : Formats) (enc : Encoding) (conf : Fields) (env : Dict Text) where
  unfoldable pub update_content : FilePath → Json → Items → List ℕ → Disk → Disk
  update_content t kind vs bytes d =
      let content = enc.decode bytes in
      write_back enc t content (updated conf env re formats kind content vs) d

  abbrev pub update_made : FilePath → Json → Items → Outcome → Disk
  update_made t kind vs (err e, d) = d
  update_made t kind vs (ok u, d) = update_content t kind vs [] (put t (file []) d)

  -- `_update_file`, and the `except` of its caller. To read a directory raises an exception.
  unfoldable pub update_file : FilePath → Json → Items → Disk → Disk
  update_file t kind vs d = elim (node_at t d) [
    | some directory ↦ d
    | some (file bytes) ↦ update_content t kind vs bytes d
    | none ↦ elim (missing_file kind) [
      | made ↦ update_made t kind vs (make_dirs [] (parent t) d)
      | m ↦ d
    ]
  ]

  -- `root` is the server's directory and `resolve` is Path.resolve.
  module _ (root : FilePath) (resolve : FilePath → FilePath) where
    -- (self.server_root / filename).resolve()
    unfoldable pub file_path : Text → FilePath
    unfolding starts_with
    file_path name = resolve (if starts_with name (lit "/") then parts name else root ++ parts name)

    unfoldable pub update_named : Text → Json → Items → Disk → Disk
    update_named name kind vs d =
        if is_under root (file_path name) then update_file (file_path name) kind vs d else d

    -- The name of the file and the replacements. A name that is no text cannot be joined to a path.
    unfoldable pub update_with : Json → Json → Json → Disk → Outcome
    update_with (str name) (arr vs) kind d = (ok tt, update_named name kind vs d)
    update_with filename (arr vs) kind d = (err type_error, d)
    update_with filename replacements kind d = (ok tt, d)

    -- One round of the loop: an entry that is passed over, or an exception that ends it.
    unfoldable pub update_entry : Json → Disk → Outcome
    unfolding truthy get_or_null get_or
    update_entry (obj entry) d =
        if truthy (get_or_null (lit "file") entry)
        then update_with (get_or_null (lit "file") entry)
            (or_else (get_or_null (lit "replace") entry) (arr nil))
            (get_or (lit "parser") (str (lit "file")) entry) d
        else (ok tt, d)
    update_entry v d = (ok tt, d)

    unfoldable pub update_entries : Items → Disk → Outcome
    update_entries nil d = (ok tt, d)
    update_entries (cons v vs) d = and_then (update_entry v d) (update_entries vs)

    unfoldable pub update_listed : Result Json → Disk → Outcome
    unfolding truthy
    update_listed (err e) d = (err e, d)
    update_listed (ok (arr vs)) d = update_entries vs d
    update_listed (ok v) d = (ok tt, d)

    -- `update_configuration_files`
    unfoldable pub update_configuration_files : Disk → Outcome
    unfolding sub
    update_configuration_files d =
        update_listed (sub (get_or_null (lit "process_configuration") conf) (lit "configs")) d
