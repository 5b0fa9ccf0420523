-- ===== src/Filesystem/Stored.antt =====
-- What `write` and `delete` leave on the disk.
use pywings.Prelude.{
  ℕ, ◌-◌, ◌≡◌, ◌∙◌, refl, ap, false, Option, none, some, List, [], ◌∷◌, ◌++◌, Text, length, arith,
  Option-cases, inl, inr,
}
use mathlib.Core.List.{append_assoc}
use pywings.Result.{Result, ok, err}
use pywings.Filesystem.Paths.{FilePath, is_under, path_eq}
use pywings.Filesystem.Prefixes.{
  is_under-take, is_under_refl, is_under_trans, is_under-append, path_eq-path,
}
use pywings.Filesystem.{
  Disk, Node, directory, file, node_at, Outcome, refuse, make_dirs, parent, path, on_path,
  write_over, write_to, write, put, and_then,
}

-- Directories are made only above the path.
make_dirs-other :
    (done rest q : FilePath) (d : Disk)
    → is_under q (done ++ rest) ≡ false
    → node_at q (make_dirs done rest d).1 ≡ node_at q d
unfolding make_dirs
make_dirs-other done [] q d other = refl
make_dirs-other done (x ∷ rest) q d other =
    let here = done ++ (x ∷ []) in
    let whole : here ++ rest ≡ done ++ (x ∷ rest) = append_assoc done (x ∷ []) rest in
    let apart : is_under q (here ++ rest) ≡ false = ap (is_under q) whole ∙ other in
    elim (Option-cases (node_at here d)) [
      | inl e ↦
          rw (e, make_dirs)
            (make_dirs-other here rest q (put here directory d) apart
              ∙ (unfold node_at in
                  ground (arith, apart, path_eq-path q here, is_under-append here rest)))
      | inr (directory, e) ↦ rw (e, make_dirs) (make_dirs-other here rest q d apart)
      | inr (file c, e) ↦ rw (e, make_dirs) refl
    ]

module _ (root : FilePath) (resolve : FilePath → FilePath) where
  -- The content stands at the path, and all else but what is above it is as before.
  pub record IsStored (content : List ℕ) (t : FilePath) (d e : Disk) : Type 0 where
    pub stored : node_at t e ≡ some (file content)
    pub others : (q : FilePath) → is_under q t ≡ false → node_at q e ≡ node_at q d

  put-IsStored :
      (content : List ℕ) (t : FilePath) (d : Disk)
      → IsStored content t d (put t (file content) (make_dirs [] (parent t) d).1)
  unfolding node_at path_eq
  put-IsStored content t d = record {
    stored = ground (arith, is_under_refl t);
    others = λ q other. ground (
      arith,
      make_dirs-other [] (parent t) q d,
      is_under_trans q (parent t) t,
      is_under-take (length t - 1) t,
    );
  }

  then-IsStored :
      (content : List ℕ) (t : FilePath) (d : Disk) (o : Outcome)
      → IsStored content t d (put t (file content) o.1)
      → (and_then o (λ d'. (ok tt, put t (file content) d'))).0 ≡ ok tt
      → IsStored content t d (and_then o (λ d'. (ok tt, put t (file content) d'))).1
  unfolding and_then
  then-IsStored content t d (err e, d') s h = cc
  then-IsStored content t d (ok u, d') s h = s

  write_over-IsStored :
      (content : List ℕ) (t : FilePath) (n : Option Node) (d : Disk)
      → (write_over root resolve content t n d).0 ≡ ok tt
      → IsStored content t d (write_over root resolve content t n d).1
  unfolding write_over
  write_over-IsStored content t (some directory) d h = cc
  write_over-IsStored content t none d h =
      then-IsStored content t d (make_dirs [] (parent t) d) (put-IsStored content t d) h
  write_over-IsStored content t (some (file c)) d h =
      then-IsStored content t d (make_dirs [] (parent t) d) (put-IsStored content t d) h

  -- A `write` that succeeds has resolved its name to a path of the server, where the content then is;
  -- nothing but what is above that path differs from before.
  pub write-IsStored :
      (name : Text) (content : List ℕ) (d : Disk)
      → (write root resolve name content d).0 ≡ ok tt
      → (t : FilePath) × (path root resolve name ≡ ok t)
        × IsStored content t d (write root resolve name content d).1
  unfolding write write_to on_path
  write-IsStored name content d h = go (path root resolve name) refl h
    where
      go :
          (x : Result FilePath)
          → path root resolve name ≡ x
          → (elim x as (λ _. Outcome) [
            | err e ↦ refuse e d
            | ok t ↦ write_over root resolve content t (node_at t d) d
          ]).0
            ≡ ok tt
          → (t : FilePath) × (path root resolve name ≡ ok t)
            × IsStored content t d
                (elim x as (λ _. Outcome) [
                  | err e ↦ refuse e d
                  | ok t ↦ write_over root resolve content t (node_at t d) d
                ]).1
      go (err e) f h = cc
      go (ok t) f h = (t, f, write_over-IsStored content t (node_at t d) d h)
