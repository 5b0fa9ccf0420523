-- ===== src/Oci/Config.antt =====
-- wings/oci/manifest.py: `ImageConfig`, the settings of an image, and the platform of the host.
use pywings.Prelude.{◌≡◌, refl, none, some, [], ◌∷◌, Text, lit, lower}
use pywings.Prelude.Dict
use pywings.Prelude.Dict.{Dict}
use pywings.Json.{Json, str, arr, obj, Items, nil, cons, Fields, end, field, get_or_null, or_else}
use pywings.Result.{Result, ok, err, type_error, attribute_error, ◌>>=◌}

-- `get_default_platform`, where `machine` is platform.machine().
abbrev pub arch_map : Dict Text
arch_map =
    (lit "x86_64", lit "amd64")
    ∷ (lit "amd64", lit "amd64")
    ∷ (lit "aarch64", lit "arm64")
    ∷ (lit "arm64", lit "arm64")
    ∷ (lit "armv7l", lit "arm")
    ∷ (lit "i386", lit "386")
    ∷ (lit "i686", lit "386")
    ∷ []

unfoldable pub get_default_platform : Text → Text × Text
get_default_platform machine = elim (Dict.lookup (lower machine) arch_map) [
  | none ↦ (lit "linux", lit "amd64")
  | some arch ↦ (lit "linux", arch)
]

pub record ImageConfig : Type 0 where
  pub env : Items
  pub cmd : Items
  pub entrypoint : Items
  pub working_dir : Json
  pub user : Json
  pub architecture : Json
  pub os : Json

-- list(v) of a text: its characters.
unfoldable pub characters : Text → Items
characters [] = nil
characters (c ∷ s) = cons (str (c ∷ [])) (characters s)

-- list(v) of a dict: its keys.
unfoldable pub keys : Fields → Items
keys end = nil
keys (field k v fs) = cons (str k) (keys fs)

-- list(v)
unfoldable pub list_of : Json → Result Items
list_of (arr vs) = ok vs
list_of (str s) = ok (characters s)
list_of (obj fs) = ok (keys fs)
list_of v = err type_error

-- d.get(k) or v
abbrev pub get_or : Text → Json → Fields → Json
get_or k v fs = or_else (get_or_null k fs) v

unfoldable pub config_from : Fields → Json → Result ImageConfig
config_from image (obj config) = do
  env ← list_of (get_or (lit "Env") (arr nil) config)
  cmd ← list_of (get_or (lit "Cmd") (arr nil) config)
  entrypoint ← list_of (get_or (lit "Entrypoint") (arr nil) config)
  ok (record {
    env = env;
    cmd = cmd;
    entrypoint = entrypoint;
    working_dir = get_or (lit "WorkingDir") (str []) config;
    user = get_or (lit "User") (str []) config;
    architecture = get_or (lit "architecture") (str []) image;
    os = get_or (lit "os") (str []) image;
  })
config_from image v = err attribute_error

-- `from_dict`
unfoldable pub from_dict : Fields → Result ImageConfig
from_dict image = config_from image (get_or (lit "config") (obj end) image)

-- A configuration whose lists are absent or lists is read, and each setting is its own.
pub from_dict_read :
    (image config : Fields) (env cmd entrypoint : Items)
    → get_or (lit "config") (obj end) image ≡ obj config
    → get_or (lit "Env") (arr nil) config ≡ arr env
    → get_or (lit "Cmd") (arr nil) config ≡ arr cmd
    → get_or (lit "Entrypoint") (arr nil) config ≡ arr entrypoint
    → from_dict image
      ≡ ok (record {
        env = env;
        cmd = cmd;
        entrypoint = entrypoint;
        working_dir = get_or (lit "WorkingDir") (str []) config;
        user = get_or (lit "User") (str []) config;
        architecture = get_or (lit "architecture") (str []) image;
        os = get_or (lit "os") (str []) image;
      })
unfolding from_dict config_from list_of
from_dict_read image config env cmd entrypoint e f g h =
    rw (e, f, g, h, from_dict, config_from, list_of) refl
