-- ===== src/Sftp/Permissions.antt =====
-- wings/sftp.py: `_has_perm`.
use pywings.Prelude.{Bool, ◌&&◌, ◌||◌, List, any, Text, lit, text_eq, starts_with}

-- perm in self.permissions
unfoldable pub holds : List Text → Text → Bool
holds permissions perm = any (text_eq perm) permissions

-- `_has_perm`: the returns one after the other, each under its own test.
unfoldable pub has_perm : List Text → Text → Bool
unfolding starts_with text_eq
has_perm ps perm =
    holds ps (lit "*")
    || holds ps (lit "admin")
    || holds ps perm
    || starts_with perm (lit "file.") && holds ps (lit "file.*")
    || (text_eq perm (lit "file.read") || text_eq perm (lit "file.read-content"))
      && (holds ps (lit "file.read") || holds ps (lit "file.read-content"))
    || (text_eq perm (lit "file.create") || text_eq perm (lit "file.update"))
      && (holds ps (lit "file.create")
          || holds ps (lit "file.update")
          || holds ps (lit "file.write"))
