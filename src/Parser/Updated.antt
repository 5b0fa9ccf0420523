-- ===== src/Parser/Updated.antt =====
-- An egg's configuration changes no file of the host outside the server's directory.
use pywings.Prelude.{
  ℕ, ◌≡◌, ◌≢◌, ap, ◌∙◌, true, some, List, [], Text, lit, text_eq, Bool-cases, Option-cases, inl,
  inr,
}
use pywings.Prelude.Dict.{Dict}
use pywings.Json.{Json, str, arr, obj, Items, nil, cons, Fields, get_or_null, truthy}
use pywings.Result.{Result, ok, err}
use pywings.Filesystem.{Disk, directory, file, node_at, put, Outcome, make_dirs, parent}
use pywings.Filesystem.Paths.{FilePath, is_under}
use pywings.Filesystem.Prefixes.{is_under_refl}
use pywings.Filesystem.Confined.{
  IsRooted, IsKept, IsKept-IsRooted, IsKept-refl, IsKept-trans, put-IsKept, parent-IsReached,
  make_dirs-IsKept, and_then-IsKept,
}
use pywings.Processes.Watch.{Regex}
use pywings.Parser.Trees.{Formats}
use pywings.Parser.{
  Encoding, Missing, skipped, made, refused, missing_file, write_back, updated, update_content,
  update_made, update_file, file_path, update_named, update_with, update_entry, update_entries,
  update_listed, update_configuration_files,
}

module _ (root : FilePath) where
  write_back-IsKept :
      (enc : Encoding) (t : FilePath) (content : Text) (r : Result Text) (d : Disk)
      → is_under root t ≡ true
      → t ≢ root
      → IsRooted root d
      → IsKept root d (write_back enc t content r d)
  write_back-IsKept enc t content (err e) d inner other r = IsKept-refl root d r
  write_back-IsKept enc t content (ok new) d inner other r =
      elim (Bool-cases (text_eq new content)) [
        | inl e ↦ rw e (IsKept-refl root d r)
        | inr e ↦ rw e (put-IsKept root t (file (enc.encode new)) d r inner other)
      ]

  module _ (re : Regex) (formats : Formats) (enc : Encoding) (conf : Fields) (env : Dict Text)
      (t : FilePath) (inner : is_under root t ≡ true) (kind : Json) (vs : Items) where
    other-root : (d : Disk) → IsRooted root d → node_at t d ≢ some directory → t ≢ root
    other-root d r other same = other (ap (λ p. node_at p d) same ∙ r root (is_under_refl root))

    update_content-IsKept :
        (bytes : List ℕ) (d : Disk)
        → t ≢ root
        → IsRooted root d
        → IsKept root d (update_content re formats enc conf env t kind vs bytes d)
    unfolding update_content
    update_content-IsKept bytes d other r =
        write_back-IsKept enc t (enc.decode bytes)
          (updated conf env re formats kind (enc.decode bytes) vs) d inner other r

    update_made-IsKept :
        (d : Disk) (o : Outcome)
        → t ≢ root
        → IsRooted root d
        → IsKept root d o.1
        → IsKept root d (update_made re formats enc conf env t kind vs o)
    update_made-IsKept d (err e, d') other r k = k
    update_made-IsKept d (ok u, d') other r k =
        let r' = IsKept-IsRooted root d d' r k in
        let touched = put t (file []) d' in
        let k' = IsKept-trans root d d' touched k (put-IsKept root t (file []) d' r' inner other) in
        IsKept-trans root d touched (update_content re formats enc conf env t kind vs [] touched) k'
          (update_content-IsKept [] touched other (IsKept-IsRooted root d touched r k'))

    update_file-IsKept :
        (d : Disk)
        → IsRooted root d
        → IsKept root d (update_file re formats enc conf env t kind vs d)
    unfolding update_file
    update_file-IsKept d r = elim (Option-cases (node_at t d)) [
      | inr (directory, e) ↦ rw (e, update_file) (IsKept-refl root d r)
      | inr (file bytes, e) ↦
          rw (e, update_file) (update_content-IsKept bytes d (other-root d r (λ f. cc)) r)
      | inl e ↦ rw (e, update_file) (go (missing_file kind) (other-root d r (λ f. cc)))
    ]
      where
        go :
            (m : Missing)
            → t ≢ root
            → IsKept root d (elim m as (λ _. Disk) [
              | made ↦ update_made re formats enc conf env t kind vs (make_dirs [] (parent t) d)
              | m' ↦ d
            ])
        go skipped other = IsKept-refl root d r
        go refused other = IsKept-refl root d r
        go made other =
            update_made-IsKept d (make_dirs [] (parent t) d) other r
              (make_dirs-IsKept root [] (parent t) d r (parent-IsReached root t inner))

  module _ (re : Regex) (formats : Formats) (enc : Encoding) (conf : Fields) (env : Dict Text)
      (resolve : FilePath → FilePath) where
    update_named-IsKept :
        (name : Text) (kind : Json) (vs : Items) (d : Disk)
        → IsRooted root d
        → IsKept root d (update_named re formats enc conf env root resolve name kind vs d)
    unfolding update_named
    update_named-IsKept name kind vs d r =
        let t = file_path re formats enc conf env root resolve name in
        elim (Bool-cases (is_under root t)) [
          | inl e ↦
              rw (e, update_named) (update_file-IsKept re formats enc conf env t e kind vs d r)
          | inr e ↦ rw (e, update_named) (IsKept-refl root d r)
        ]

    update_with-IsKept :
        (name replacements kind : Json) (d : Disk)
        → IsRooted root d
        → IsKept root d
            (update_with re formats enc conf env root resolve name replacements kind d).1
    unfolding update_with
    update_with-IsKept (str name) (arr vs) kind d r = update_named-IsKept name kind vs d r
    update_with-IsKept _ (arr vs) kind d r = IsKept-refl root d r
    update_with-IsKept name _ kind d r = IsKept-refl root d r

    update_entry-IsKept :
        (v : Json) (d : Disk)
        → IsRooted root d
        → IsKept root d (update_entry re formats enc conf env root resolve v d).1
    unfolding update_entry
    update_entry-IsKept (obj entry) d r =
        elim (Bool-cases (truthy (get_or_null (lit "file") entry))) [
          | inl e ↦ rw (e, update_entry) (update_with-IsKept _ _ _ d r)
          | inr e ↦ rw (e, update_entry) (IsKept-refl root d r)
        ]
    update_entry-IsKept _ d r = IsKept-refl root d r

    update_entries-IsKept :
        (vs : Items) (d : Disk)
        → IsRooted root d
        → IsKept root d (update_entries re formats enc conf env root resolve vs d).1
    unfolding update_entries
    update_entries-IsKept nil d r = IsKept-refl root d r
    update_entries-IsKept (cons v vs) d r =
        and_then-IsKept root d (update_entry re formats enc conf env root resolve v d)
          (update_entries re formats enc conf env root resolve vs) r (update_entry-IsKept v d r)
          (λ d' r'. update_entries-IsKept vs d' r')

    update_listed-IsKept :
        (v : Result Json) (d : Disk)
        → IsRooted root d
        → IsKept root d (update_listed re formats enc conf env root resolve v d).1
    unfolding update_listed
    update_listed-IsKept (err e) d r = IsKept-refl root d r
    update_listed-IsKept (ok (arr vs)) d r = update_entries-IsKept vs d r
    update_listed-IsKept (ok _) d r = IsKept-refl root d r

    -- Whatever files an egg's configuration names, whatever it replaces in them, and however links and
    -- dots are resolved: the update of the configuration files leaves every file and directory of the
    -- host outside the server's directory as it was, and the server's directory is still there, also
    -- where an exception ends the update. The directory and all above it are directories to begin with.
    pub update_configuration_files-IsKept :
        (d : Disk)
        → IsRooted root d
        → IsKept root d (update_configuration_files re formats enc conf env root resolve d).1
    unfolding update_configuration_files
    update_configuration_files-IsKept d r = update_listed-IsKept _ d r
