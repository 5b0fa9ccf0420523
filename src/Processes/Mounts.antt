-- ===== src/Processes/Mounts.antt =====
-- wings/processes.py: what a server's process sees of the host's files, `_volumes`.
use pywings.Prelude.{
  Bool, not, ◌||◌, ◌++◌, List, [], ◌∷◌, any, Text, lit, text_eq, starts_with, if◌then◌else◌,
}
use pywings.Json.{Json, arr, obj, Items, nil, cons, Fields, get_or_null, truthy, or_else}
use pywings.Json.Printed.{text_of}
use pywings.Result.{Result, ok, err, value_error, ◌>>=◌}
use pywings.Filesystem.{Disk, make_dirs, and_give}
use pywings.Filesystem.Paths.{FilePath, is_under, relative_text}
use pywings.Processes.Config.{sub, ◌or◌}

-- str(path) of an absolute path.
abbrev pub absolute_text : FilePath → Text
absolute_text [] = lit "/"
absolute_text (w ∷ ws) = b'/' ∷ relative_text (w ∷ ws)

unfoldable pub mounts_of : Fields → Result Json
unfolding sub
mounts_of conf =
    ok (get_or_null (lit "mounts") conf)
    or sub (get_or_null (lit "container") conf) (lit "mounts")
    or ok (arr nil)

abbrev pub target_of : Fields → Json
target_of fs = or_else (get_or_null (lit "target") fs) (get_or_null (lit "destination") fs)

abbrev pub source_of : Fields → Json
source_of fs = or_else (get_or_null (lit "source") fs) (get_or_null (lit "src") fs)

-- The targets of the mounts that are objects.
unfoldable pub targets_of : Items → List Text
unfolding text_of truthy get_or_null
targets_of nil = []
targets_of (cons (obj fs) vs) = text_of (target_of fs) ∷ targets_of vs
targets_of (cons v vs) = targets_of vs

abbrev pub volume : FilePath → Text → Text
volume source target = absolute_text source ++ (b':' ∷ target)

-- A path below the server's directory or below one that mounts may take.
unfoldable pub is_allowed : List FilePath → FilePath → FilePath → Bool
is_allowed allowed root source = is_under root source || any (λ a. is_under a source) allowed

-- A directory of the server at a target that no mount has.
unfoldable pub unless_mounted : List Text → FilePath → Text → List Text
unless_mounted targets source target =
    if any (text_eq target) targets then [] else volume source target ∷ []

abbrev pub tmp : FilePath → FilePath
tmp root = root ++ (lit ".tmp" ∷ [])

abbrev pub shm : FilePath → FilePath
shm root = root ++ (lit ".shm" ∷ [])

-- `allowed` are the directories that mounts may take from the host; `resolve` is
-- Path(text).expanduser().resolve(); `root` is the server's directory.
module _ (allowed : List FilePath) (resolve : Text → FilePath) (root : FilePath) where
  -- One round of the loop.
  unfoldable pub mount_volume : Json → Result Text
  unfolding truthy text_of starts_with get_or_null
  mount_volume (obj fs) =
      let source = source_of fs in
      let target = target_of fs in
      if not (truthy source) || not (truthy target) || not (starts_with (text_of target) (lit "/"))
      then err (value_error (lit "each mount requires an absolute source and target"))
      else if is_allowed allowed root (resolve (text_of source))
      then ok (volume (resolve (text_of source)) (text_of target))
      else err (value_error (lit "mount source is not allowed"))
  mount_volume v = err (value_error (lit "each server mount must be an object"))

  unfoldable pub mount_volumes : Items → Result (List Text)
  mount_volumes nil = ok []
  mount_volumes (cons v vs) = do w ← mount_volume v; ws ← mount_volumes vs; ok (w ∷ ws)

  unfoldable pub planned : Items → Result (List Text)
  unfolding targets_of
  planned vs = do
    let targets = targets_of vs
    mounted ← mount_volumes vs
    ok (
        unless_mounted targets root (lit "/home/container")
        ++ (mounted
            ++ (unless_mounted targets (tmp root) (lit "/tmp")
                ++ unless_mounted targets (shm root) (lit "/dev/shm"))))

  -- The directories for what the server keeps of its own in place of /tmp and /dev/shm.
  unfoldable pub make_private : List Text → Disk → Result (List Text) × Disk
  make_private mounted d =
      and_give (make_dirs [] (tmp root) d)
        λ d'. and_give (make_dirs [] (shm root) d') λ d''. (ok mounted, d'')

  unfoldable pub volumes_from : Result Json → Disk → Result (List Text) × Disk
  volumes_from (err e) d = (err e, d)
  volumes_from (ok (arr vs)) d = elim (planned vs) [
    | err e ↦ (err e, d)
    | ok ws ↦ make_private ws d
  ]
  volumes_from (ok v) d =
      (err (value_error (lit "server configuration mounts must be an array")), d)

  -- `_volumes`
  unfoldable pub volumes : Fields → Disk → Result (List Text) × Disk
  volumes conf d = volumes_from (mounts_of conf) d
