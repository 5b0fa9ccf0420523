-- ===== src/Filesystem/Selected.antt =====
-- wings/filesystem.py: which files of a server a backup holds.
use pywings.Prelude.{
  ◌≡◌, refl, sym, ap, ◌↔◌, inl, inr, Bool, true, false, not, none, some, List, [], ◌∷◌, ◌++◌, any,
  Text, lit, join, Bool-cases, and_both,
}
use mathlib.Core.Path.{subst}
use native.Mathlib.Omega.{arith}
use mathlib.Core.List.{append_assoc}
use pywings.Filesystem.{Disk, Node, node_at}
use pywings.Filesystem.Paths.{FilePath}
use pywings.Filesystem.Backups.{is_matched, is_own, filter_tar, is_added, is_skipped, archived}

-- The name of a member in the archive.
abbrev pub member_name : Text → List Text → Text
member_name entry q = join b'/' entry q

member_name-below :
    (name w : Text) (p : List Text)
    → member_name (name ++ (lit "/" ++ w)) p ≡ member_name name (w ∷ p)
unfolding join
member_name-below name w [] = refl
member_name-below name w (v ∷ p) = append_assoc name (b'/' ∷ w) (b'/' ∷ join b'/' v p)

module _ (backup_id : Text) (is_transfer : Bool) (rules : List Text) where
  -- No name from the entry down to the member is refused.
  pub record IsTaken (entry : Text) (q : FilePath) : Type 0 where
    pub entered : is_skipped backup_id is_transfer rules entry ≡ false
    pub not_own :
        (p s : FilePath) → q ≡ p ++ s → is_own backup_id is_transfer (member_name entry p) ≡ false
    pub not_ruled :
        (p s : FilePath) → q ≡ p ++ s → any (is_matched (member_name entry p)) rules ≡ false

  filter_tar-cases :
      (name : Text)
      → (filter_tar backup_id is_transfer rules name ≡ true)
        ↔ ((is_own backup_id is_transfer name ≡ false) × (any (is_matched name) rules ≡ false))
  unfolding filter_tar
  filter_tar-cases name = elim (Bool-cases (is_own backup_id is_transfer name)) [
    | inl e ↦ elim (Bool-cases (any (is_matched name) rules)) [
      | inl f ↦ ground arith
      | inr f ↦ ground arith
    ]
    | inr e ↦ elim (Bool-cases (any (is_matched name) rules)) [
      | inl f ↦ ground arith
      | inr f ↦ ground arith
    ]
  ]

  is_added-taken :
      (name : Text) (q : FilePath)
      → is_added backup_id is_transfer rules name q ≡ true
      → (p s : FilePath) → q ≡ p ++ s
      → filter_tar backup_id is_transfer rules (member_name name p) ≡ true
  unfolding is_added join
  is_added-taken name [] h [] s e = h
  is_added-taken name [] h (v ∷ p) s e = cc
  is_added-taken name (w ∷ q) h [] s e = (and_both _ _ h).0
  is_added-taken name (w ∷ q) h (v ∷ p) s e =
      subst (λ m. filter_tar backup_id is_transfer rules m ≡ true) (member_name-below name v p)
        (is_added-taken (name ++ (lit "/" ++ v)) q
          (subst (λ u. is_added backup_id is_transfer rules (name ++ (lit "/" ++ u)) q ≡ true)
            {x = w} (cc (e)) (and_both (filter_tar backup_id is_transfer rules name) _ h).1)
          p s cc)

  taken-is_added :
      (name : Text) (q : FilePath)
      → ((p s : FilePath)
          → q ≡ p ++ s
          → filter_tar backup_id is_transfer rules (member_name name p) ≡ true)
      → is_added backup_id is_transfer rules name q ≡ true
  unfolding is_added join
  taken-is_added name [] h = h [] [] refl
  taken-is_added name (w ∷ q) h =
      rw (h [] (w ∷ q) refl, is_added)
        (taken-is_added (name ++ (lit "/" ++ w)) q λ p s e.
          subst (λ m. filter_tar backup_id is_transfer rules m ≡ true)
            (sym (member_name-below name w p)) (h (w ∷ p) s (ap (λ t. w ∷ t) e)))

  archived_refused :
      (root : FilePath) (d : Disk) (entry : Text) (q : FilePath)
      → is_skipped backup_id is_transfer rules entry ≡ false
      → is_added backup_id is_transfer rules entry q ≡ false
      → archived backup_id is_transfer rules root d (entry ∷ q) ≡ none
  unfolding archived
  archived_refused root d entry q e f = rw (e, f, archived) refl

  -- An archive holds a member if and only if the disk does, the entry above it is not passed over, and
  -- neither its own name nor that of a directory above it is one of the backups or is matched by a rule.
  pub archived_iff :
      (root : FilePath) (d : Disk) (entry : Text) (q : FilePath) (n : Node)
      → (archived backup_id is_transfer rules root d (entry ∷ q) ≡ some n)
        ↔ ((node_at (root ++ (entry ∷ q)) d ≡ some n) × IsTaken entry q)
  unfolding archived
  archived_iff root d entry q n = elim (Bool-cases (is_skipped backup_id is_transfer rules entry)) [
    | inl e ↦ (λ h. cc (h, ap not e), λ (h, t). cc (e, t.entered))
    | inr e ↦ elim (Bool-cases (is_added backup_id is_transfer rules entry q)) [
      | inl f ↦
          rw (e, f, archived)
            (
              λ h. (
                h,
                record {
                  entered = e;
                  not_own = λ p s g. ((filter_tar-cases _).0 (is_added-taken entry q f p s g)).0;
                  not_ruled = λ p s g. ((filter_tar-cases _).0 (is_added-taken entry q f p s g)).1;
                },
              ),
              λ (h, t). h,
            )
      | inr f ↦ (
        λ h. cc (h, archived_refused root d entry q e f),
        λ (h, t). cc (
          f,
          taken-is_added entry q
              λ p s g. (filter_tar-cases _).1 (t.not_own p s g, t.not_ruled p s g),
        ),
      )
    ]
  ]
