-- ===== src/Filesystem/Mime.antt =====
-- wings/filesystem.py: `detect_mime`, the MIME type of a file by its name and its first bytes.
use pywings.Prelude.{
  ℕ, Bool, Option, none, some, List, [], ◌∷◌, take, any, Text, lit, text_eq, has_char, lower,
  is_empty, if◌then◌else◌,
}
use pywings.Filesystem.{Disk, directory, file, node_at}
use pywings.Filesystem.Paths.{FilePath}
use pywings.Filesystem.Copying.{name_of, stem_suffix}

unfoldable pub among : List Text → Text → Bool
among names name = any (text_eq name) names

-- `TEXT_EXTENSIONS`
abbrev pub text_extensions : List Text
text_extensions =
    lit ".txt"
    ∷ lit ".log"
    ∷ lit ".cfg"
    ∷ lit ".conf"
    ∷ lit ".config"
    ∷ lit ".properties"
    ∷ lit ".ini"
    ∷ lit ".env"
    ∷ lit ".yml"
    ∷ lit ".yaml"
    ∷ lit ".json"
    ∷ lit ".toml"
    ∷ lit ".xml"
    ∷ lit ".sh"
    ∷ lit ".bash"
    ∷ lit ".zsh"
    ∷ lit ".ash"
    ∷ lit ".py"
    ∷ lit ".js"
    ∷ lit ".mjs"
    ∷ lit ".cjs"
    ∷ lit ".ts"
    ∷ lit ".tsx"
    ∷ lit ".jsx"
    ∷ lit ".html"
    ∷ lit ".htm"
    ∷ lit ".css"
    ∷ lit ".scss"
    ∷ lit ".sass"
    ∷ lit ".less"
    ∷ lit ".md"
    ∷ lit ".markdown"
    ∷ lit ".rst"
    ∷ lit ".sql"
    ∷ lit ".lua"
    ∷ lit ".java"
    ∷ lit ".c"
    ∷ lit ".cpp"
    ∷ lit ".cc"
    ∷ lit ".h"
    ∷ lit ".hpp"
    ∷ lit ".rs"
    ∷ lit ".go"
    ∷ lit ".php"
    ∷ lit ".rb"
    ∷ lit ".pl"
    ∷ lit ".r"
    ∷ lit ".csv"
    ∷ lit ".tsv"
    ∷ lit ".lock"
    ∷ lit ".editorconfig"
    ∷ lit ".gitignore"
    ∷ lit ".gitattributes"
    ∷ lit ".gitmodules"
    ∷ lit ".dockerignore"
    ∷ lit ".npmrc"
    ∷ lit ".nvmrc"
    ∷ lit ".yarnrc"
    ∷ lit ".bat"
    ∷ lit ".cmd"
    ∷ lit ".ps1"
    ∷ lit ".vbs"
    ∷ lit ".service"
    ∷ lit ".rules"
    ∷ []

-- `SPECIAL_TEXT_FILES`
abbrev pub special_text_files : List Text
special_text_files =
    lit "dockerfile"
    ∷ lit "makefile"
    ∷ lit "procfile"
    ∷ lit "rakefile"
    ∷ lit "gemfile"
    ∷ lit "vagrantfile"
    ∷ lit "license"
    ∷ lit "readme"
    ∷ lit "changelog"
    ∷ lit "authors"
    ∷ lit "contributors"
    ∷ lit "copying"
    ∷ []

-- `BINARY_EXTENSIONS`
abbrev pub binary_extensions : List Text
binary_extensions =
    lit ".jar"
    ∷ lit ".zip"
    ∷ lit ".tar"
    ∷ lit ".gz"
    ∷ lit ".tgz"
    ∷ lit ".bz2"
    ∷ lit ".tbz2"
    ∷ lit ".xz"
    ∷ lit ".txz"
    ∷ lit ".7z"
    ∷ lit ".rar"
    ∷ lit ".iso"
    ∷ lit ".bin"
    ∷ lit ".exe"
    ∷ lit ".dll"
    ∷ lit ".so"
    ∷ lit ".dylib"
    ∷ lit ".png"
    ∷ lit ".jpg"
    ∷ lit ".jpeg"
    ∷ lit ".gif"
    ∷ lit ".webp"
    ∷ lit ".ico"
    ∷ lit ".bmp"
    ∷ lit ".tiff"
    ∷ lit ".mp3"
    ∷ lit ".mp4"
    ∷ lit ".wav"
    ∷ lit ".ogg"
    ∷ lit ".flac"
    ∷ lit ".mkv"
    ∷ lit ".avi"
    ∷ lit ".pdf"
    ∷ lit ".sqlite"
    ∷ lit ".sqlite3"
    ∷ lit ".db"
    ∷ lit ".dat"
    ∷ lit ".class"
    ∷ lit ".pyc"
    ∷ lit ".pyo"
    ∷ lit ".pyd"
    ∷ lit ".wasm"
    ∷ lit ".woff"
    ∷ lit ".woff2"
    ∷ lit ".ttf"
    ∷ lit ".eot"
    ∷ lit ".otf"
    ∷ []

abbrev pub text_plain : Text
text_plain = lit "text/plain; charset=utf-8"

-- The tests of the extensions of texts in their order, each with its type.
abbrev pub text_types : List (List Text × Text)
text_types =
    (lit ".yml" ∷ lit ".yaml" ∷ [], lit "application/x-yaml")
    ∷ (lit ".json" ∷ [], lit "application/json")
    ∷ (lit ".html" ∷ lit ".htm" ∷ [], lit "text/html")
    ∷ (lit ".xml" ∷ [], lit "application/xml")
    ∷ (lit ".sh" ∷ lit ".bash" ∷ lit ".zsh" ∷ lit ".ash" ∷ [], lit "application/x-sh")
    ∷ (lit ".js" ∷ lit ".mjs" ∷ lit ".cjs" ∷ [], lit "application/javascript")
    ∷ (lit ".ts" ∷ lit ".tsx" ∷ [], lit "application/typescript")
    ∷ (lit ".css" ∷ lit ".scss" ∷ lit ".sass" ∷ lit ".less" ∷ [], lit "text/css")
    ∷ []

unfoldable pub text_type : List (List Text × Text) → Text → Text
text_type [] suffix = text_plain
text_type ((suffixes, mime) ∷ rest) suffix =
    let other = text_type rest suffix in if among suffixes suffix then mime else other

-- `guess_type` is the first of the pair that mimetypes.guess_type gives.
module _ (guess_type : Text → Option Text) where
  -- guessed or "application/octet-stream"
  unfoldable pub guessed : Text → Text
  guessed name = elim (guess_type name) [
    | none ↦ lit "application/octet-stream"
    | some guess ↦ if is_empty guess then lit "application/octet-stream" else guess
  ]

  -- By the first bytes. Bytes that are no UTF-8 are read as Latin-1, which has every byte.
  unfoldable pub sample_type : Text → List ℕ → Text
  sample_type name sample =
      if is_empty sample then text_plain else if has_char 0 sample then guessed name else text_plain

  unfoldable pub file_type : Text → List ℕ → Text
  file_type name content =
      let suffix_lower = lower (stem_suffix name).1 in
      if among special_text_files (lower name)
      then text_plain
      else if among text_extensions suffix_lower
      then text_type text_types suffix_lower
      else if among binary_extensions suffix_lower
      then guessed name
      else sample_type name (take 1024 content)

  unfoldable pub detect_mime : FilePath → Disk → Text
  detect_mime target d = elim (node_at target d) [
    | some directory ↦ lit "inode/directory"
    | some (file content) ↦ file_type (name_of target) content
    | none ↦ file_type (name_of target) []
  ]
