-- ===== src/Tests/Eggs.antt =====
-- Runs of the update of configuration files.
use pywings.Prelude.{
  ◌≡◌, refl, true, none, some, [], ◌∷◌, Text, lit, text_eq, text_eq_iff, arith, has_char, is_space,
}
use pywings.Prelude.Dict
use pywings.Prelude.Dict.{Dict}
use pywings.Prelude.Strip.{IsTrimmed}
use pywings.Prelude.Patterns.{substitute}
use pywings.Json.{Json, Fields, obj, arr, str, bool, int, cons, nil, field, end, get_field, truthy}
use pywings.Result.{ok}
use pywings.Filesystem.{Disk, directory, file, node_at}
use pywings.Filesystem.Paths.{FilePath, is_under}
use pywings.Filesystem.Confined.{IsRooted, IsKept}
use pywings.Processes.Watch.{Regex}
use pywings.Parser.{Encoding, update_configuration_files}
use pywings.Parser.Updated.{update_configuration_files-IsKept}
use pywings.Parser.Values.{replacement_of, resolve_value, try_substitute, variable_value}
use pywings.Parser.Properties.{update_properties, is_break, split_lines}
use pywings.Parser.Restored.{IsKey}
use pywings.Parser.Lines.{has_break}
use pywings.Parser.Settings.{HasSetting, update_properties-HasSetting}
use pywings.Parser.Trees.{Formats, set_path}
use pywings.Parser.Nested.{AreBeside, get_path, set_path-get_path}

abbrev re : Regex
re = record { search = λ p. none; strip_ansi = λ s. s }

-- Formats that know the empty object only.
abbrev formats : Formats
formats = record {
  loads = λ s. none;
  dumps = λ v. lit "{}";
  safe_load = λ s. none;
  safe_dump = λ v. lit "{}";
}

abbrev bytes : Encoding
bytes = record { encode = λ s. s; decode = λ s. s }

abbrev env : Dict Text
env = (lit "PORT", lit "80") ∷ []

abbrev raw : Json
raw = obj (
    field (lit "match") (str (lit "server-port"))
      (field (lit "replace_with") (str (lit "{{ PORT }}")) end))

abbrev entry : Text → Json
entry name = obj (
    field (lit "file") (str name) (
      field (lit "parser") (str (lit "properties"))
        (field (lit "replace") (arr (cons raw nil)) end)))

abbrev conf : Fields
conf =
    field (lit "process_configuration")
      (obj (
        field (lit "configs")
          (arr (cons (entry (lit "a.txt")) (cons (entry (lit "/etc/passwd")) nil))) end))
      end

abbrev root : FilePath
root = lit "one" ∷ []

abbrev disk : Disk
disk =
    ([], directory)
    ∷ (root, directory)
    ∷ (lit "one" ∷ lit "a.txt" ∷ [], file (lit "server-port=1"))
    ∷ []

disk-IsRooted : IsRooted root disk
unfolding is_under node_at text_eq
disk-IsRooted [] h = refl
disk-IsRooted (a ∷ []) h = ground (arith, text_eq_iff a (lit "one"))
disk-IsRooted (a ∷ b ∷ p) h = ground arith

update_configuration_files-IsKept_example :
    IsKept root disk (update_configuration_files re formats bytes conf env root (λ p. p) disk).1
update_configuration_files-IsKept_example =
    update_configuration_files-IsKept root re formats bytes conf env (λ p. p) disk disk-IsRooted

raw_run :
    replacement_of conf env raw
    ≡ ok (record { match = str (lit "server-port"); if_value = str []; replace_with = lit "80" })
unfolding replacement_of resolve_value try_substitute substitute get_field text_eq variable_value
    Dict.lookup
raw_run = refl

port-IsKey : IsKey (lit "server-port")
unfolding has_char is_space
port-IsKey = record {
  trimmed = record { front = refl; back = refl };
  plain = refl;
  hashless = refl;
}

value-IsTrimmed : IsTrimmed (lit "80")
unfolding is_space
value-IsTrimmed = record { front = refl; back = refl }

update_properties-HasSetting_example :
    (out : Text) × (update_properties re conf env (lit "a=b\nserver-port=1") (cons raw nil)
      ≡ ok out)
    × HasSetting
        (lit "server-port")
        (lit "80")
        (split_lines (lit "a=b\nserver-port=1"))
        (split_lines out)
unfolding has_break truthy is_break
update_properties-HasSetting_example =
    update_properties-HasSetting (lit "server-port") (lit "80") port-IsKey value-IsTrimmed re conf
      env (lit "a=b\nserver-port=1") raw (str []) refl refl raw_run

abbrev settings : Fields
settings = field (lit "a") (int 1) (field (lit "b") (obj (field (lit "d") (int 2) end)) end)

set_path-get_path_example :
    (out : Fields) × (set_path re (str []) (bool true) (lit "b") (lit "c" ∷ []) settings ≡ ok out)
    × (get_path (lit "b") (lit "c" ∷ []) out ≡ some (bool true))
    × AreBeside (lit "b") (lit "c" ∷ []) out settings
unfolding truthy
set_path-get_path_example =
    set_path-get_path re (str []) (bool true) (lit "b") (lit "c" ∷ []) settings refl
