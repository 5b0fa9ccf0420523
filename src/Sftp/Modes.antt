-- ===== src/Sftp/Modes.antt =====
-- wings/sftp.py: the bits of permissions that `open` sets, and where.
use pywings.Prelude.{ℕ, ◌≡◌, ◌⊎◌, true, Option, none, some, List, [], ◌∷◌, Text, if◌then◌else◌}
use pywings.Result.{ok, err}
use pywings.Filesystem.{Disk, Node, node_at, make_dirs, parent, Outcome}
use pywings.Filesystem.Paths.{FilePath, is_under}
use pywings.Sftp.{Request, open_file, Mode, reading, mode_of, resolved, may_open}

-- 0o666 for the file, which is there by then unless it is to be read only.
unfoldable pub node_bits : Mode → FilePath → Option Node → List (FilePath × ℕ)
node_bits reading t none = []
node_bits mode t n = (t, 438) ∷ []

-- 0o777 for the directory above it.
abbrev pub bits_below : Mode → FilePath → Outcome → List (FilePath × ℕ)
bits_below mode t (err e, d) = []
bits_below mode t (ok u, d) = (parent t, 511) ∷ node_bits mode t (node_at t d)

module _ (root : FilePath) (resolve : FilePath → FilePath) (permissions : List Text) where
  -- The calls of chmod that a request makes, in their order.
  unfoldable pub bits_of : Request → Disk → List (FilePath × ℕ)
  bits_of (open_file path f) d = elim (resolved root resolve permissions path) [
    | none ↦ []
    | some t ↦
        if may_open root resolve permissions f
        then bits_below (mode_of f) t (make_dirs [] (parent t) d)
        else []
  ]
  bits_of q d = []

module _ (root : FilePath) where
  -- In the server's directory, or the directory right above it.
  abbrev pub IsNear : FilePath → Type 0
  IsNear p = (is_under root p ≡ true) ⊎ (p ≡ parent root)
