-- ===== src/Sftp/Readers.antt =====
-- What SFTP requests change without an event in the log: nothing but new directories.
use mathlib.Core.Path.{subst}
use pywings.Prelude.{
  ◌≡◌, ◌≢◌, ◌∙◌, refl, ap, true, false, Bool, Option, none, some, List, [], ◌∷◌, ◌++◌, Text, ◌||◌,
  arith, Bool-cases, Option-cases, inl, inr, if◌then◌else◌, ℕ,
}
use pywings.Result.{ok, err}
use pywings.Filesystem.Paths.{FilePath, is_under, path_eq}
use pywings.Filesystem.Prefixes.{path_eq-path}
use pywings.Filesystem.{
  Disk, Node, directory, file, node_at, Outcome, make_dirs, parent, put, replace, replace_node,
  is_occupied,
}
use pywings.Sftp.{
  Reply, reply, Code, code, succeeded, denied, failed, Mode, reading, updating, replacing, Flags,
  mode_of, outcome_reply, open_node, open_below, unlink, remove_directory, rename_node,
  rename_below, Request, list_folder, stat, lstat, remove, mkdir, rmdir, chattr, open_file, rename,
  resolved, on_target, beside_root, list_at, stat_at, may_open, open_at, perform, may,
}
use pywings.Sftp.Sessions.{event_of, opened}

-- What was on the disk is on it as before, and every file that is on it was.
pub record IsGrown (d e : Disk) : Type 0 where
  pub kept : (p : FilePath) (n : Node) → node_at p d ≡ some n → node_at p e ≡ some n
  pub files :
      (p : FilePath) (c : List ℕ) → node_at p e ≡ some (file c) → node_at p d ≡ some (file c)

pub IsGrown-refl : (d : Disk) → IsGrown d d
IsGrown-refl d = record { kept = λ p n h. h; files = λ p c h. h }

pub IsGrown-trans : (c d e : Disk) → IsGrown c d → IsGrown d e → IsGrown c e
IsGrown-trans c d e g h = record {
  kept = λ p n k. h.kept p n (g.kept p n k);
  files = λ p b k. g.files p b (h.files p b k);
}

put-IsGrown :
    (here : FilePath) (d : Disk) → node_at here d ≡ none → IsGrown d (put here directory d)
unfolding node_at
put-IsGrown here d h = record {
  kept = λ p n k. elim (Bool-cases (path_eq p here)) [
    | inl e ↦ cc (k, h, ap (λ x. node_at x d) (path_eq-path p here e))
    | inr e ↦ rw e k
  ];
  files = λ p c k. elim (Bool-cases (path_eq p here)) [
    | inl e ↦ ground (arith, k, e)
    | inr e ↦ ground (arith, k, e)
  ];
}

make_dirs-IsGrown : (done rest : FilePath) (d : Disk) → IsGrown d (make_dirs done rest d).1
unfolding make_dirs
make_dirs-IsGrown done [] d = IsGrown-refl d
make_dirs-IsGrown done (x ∷ rest) d =
    let here = done ++ (x ∷ []) in
    elim (Option-cases (node_at here d)) [
      | inl e ↦
          rw (e, make_dirs)
            (IsGrown-trans d (put here directory d) (make_dirs here rest (put here directory d)).1
              (put-IsGrown here d e) (make_dirs-IsGrown here rest (put here directory d)))
      | inr (directory, e) ↦ rw (e, make_dirs) (make_dirs-IsGrown here rest d)
      | inr (file c, e) ↦ rw (e, make_dirs) (IsGrown-refl d)
    ]

-- A method whose reply changes more than that has an event in the log.
abbrev pub Logs : Request → (Disk → Reply) → Type 0
Logs q f = (d : Disk) → event_of q (f d).0 ≡ none → IsGrown d (f d).1

open_node-Logs :
    (path : Text) (f : Flags) (t : FilePath) (mode : Mode) (n : Option Node) (d : Disk)
    → mode_of f ≡ mode
    → event_of (open_file path f) (open_node mode t n d).0 ≡ none
    → IsGrown d (open_node mode t n d).1
unfolding open_node event_of
open_node-Logs path f t reading none d m h = IsGrown-refl d
open_node-Logs path f t reading (some directory) d m h = IsGrown-refl d
open_node-Logs path f t reading (some (file c)) d m h = IsGrown-refl d
open_node-Logs path f t updating (some directory) d m h = IsGrown-refl d
open_node-Logs path f t replacing (some directory) d m h = IsGrown-refl d
open_node-Logs path f t updating none d m h = cc (subst (λ o. opened path o ≡ none) m h)
open_node-Logs path f t updating (some (file c)) d m h = IsGrown-refl d
open_node-Logs path f t replacing none d m h = cc (subst (λ o. opened path o ≡ none) m h)
open_node-Logs path f t replacing (some (file c)) d m h = cc (subst (λ o. opened path o ≡ none) m h)

open_below-Logs :
    (path : Text) (f : Flags) (t : FilePath) (d : Disk) (o : Outcome)
    → IsGrown d o.1
    → event_of (open_file path f) (open_below (mode_of f) t o).0 ≡ none
    → IsGrown d (open_below (mode_of f) t o).1
open_below-Logs path f t d (err e, d') g h = g
open_below-Logs path f t d (ok u, d') g h =
    IsGrown-trans d d' (open_node (mode_of f) t (node_at t d') d').1 g
      (open_node-Logs path f t (mode_of f) (node_at t d') d' refl h)

-- A move that fails changes nothing.
replace_node-IsGrown :
    (s t : FilePath) (n : Node) (o : Option Node) (d : Disk)
    → (replace_node s t n o d).0 ≢ ok tt
    → IsGrown d (replace_node s t n o d).1
unfolding replace_node
replace_node-IsGrown s t (file c) (some directory) d h = IsGrown-refl d
replace_node-IsGrown s t (file c) none d h = absurd (h refl)
replace_node-IsGrown s t (file c) (some (file b)) d h = absurd (h refl)
replace_node-IsGrown s t directory (some (file c)) d h = IsGrown-refl d
replace_node-IsGrown s t directory none d h = absurd (h refl)
replace_node-IsGrown s t directory (some directory) d h = elim (Bool-cases (is_occupied t d)) [
  | inl e ↦ rw (e, replace_node) (IsGrown-refl d)
  | inr e ↦ absurd (h (rw (e, replace_node) refl))
]

replace-IsGrown :
    (s t : FilePath) (d : Disk) → (replace s t d).0 ≢ ok tt → IsGrown d (replace s t d).1
unfolding replace
replace-IsGrown s t d h = elim (Bool-cases (path_eq s t)) [
  | inl e ↦ absurd (h (rw (e, replace) refl))
  | inr e ↦ elim (Bool-cases (is_under s t)) [
    | inl f ↦ rw (e, f, replace) (IsGrown-refl d)
    | inr f ↦ elim (Option-cases (node_at s d)) [
      | inl g ↦ rw (e, f, g, replace) (IsGrown-refl d)
      | inr (n, g) ↦
          rw (e, f, g, replace)
            (replace_node-IsGrown s t n (node_at t d) d (λ k. h (rw (e, f, g, replace) k)))
    ]
  ]
]

-- The methods whose success is logged.
module _ (q : Request) (logged : event_of q (code succeeded) ≢ none) where
  outcome-Logs :
      (d : Disk) (o : Outcome)
      → (o.0 ≢ ok tt → IsGrown d o.1)
      → event_of q (outcome_reply o).0 ≡ none
      → IsGrown d (outcome_reply o).1
  outcome-Logs d (err e, d') g h = g (λ f. cc)
  outcome-Logs d (ok u, d') g h = absurd (logged h)

  unlink-Logs : (t : FilePath) → Logs q (unlink t)
  unfolding unlink
  unlink-Logs t d h = elim (Option-cases (node_at t d)) [
    | inl e ↦ rw (e, unlink) (IsGrown-refl d)
    | inr (directory, e) ↦ rw (e, unlink) (IsGrown-refl d)
    | inr (file c, e) ↦ absurd (logged (ap (event_of q) (rw (e, unlink) refl) ∙ h))
  ]

  remove_directory-Logs : (t : FilePath) → Logs q (remove_directory t)
  unfolding remove_directory
  remove_directory-Logs t d h = elim (Option-cases (node_at t d)) [
    | inl e ↦ rw (e, remove_directory) (IsGrown-refl d)
    | inr (file c, e) ↦ rw (e, remove_directory) (IsGrown-refl d)
    | inr (directory, e) ↦ elim (Bool-cases (is_occupied t d)) [
      | inl f ↦ rw (e, f, remove_directory) (IsGrown-refl d)
      | inr f ↦ absurd (logged (ap (event_of q) (rw (e, f, remove_directory) refl) ∙ h))
    ]
  ]

  rename_node-Logs : (s t : FilePath) → Logs q (rename_node s t)
  unfolding rename_node
  rename_node-Logs s t d h = elim (Option-cases (node_at s d)) [
    | inl e ↦ rw (e, rename_node) (IsGrown-refl d)
    | inr (n, e) ↦
        rw (e, rename_node)
          (outcome-Logs d (replace s t d) (replace-IsGrown s t d)
            (ap (event_of q) (rw (e, rename_node) refl) ∙ h))
  ]

  rename_below-Logs :
      (s t : FilePath) (d : Disk) (o : Outcome)
      → IsGrown d o.1
      → event_of q (rename_below s t o).0 ≡ none
      → IsGrown d (rename_below s t o).1
  rename_below-Logs s t d (err e, d') g h = g
  rename_below-Logs s t d (ok u, d') g h =
      IsGrown-trans d d' (rename_node s t d').1 g (rename_node-Logs s t d' h)

module _ (root : FilePath) (resolve : FilePath → FilePath) (permissions : List Text) where
  on_target-Logs :
      (q : Request) (refused : Code) (path : Text) (f : FilePath → Disk → Reply)
      → ((t : FilePath) → Logs q (f t))
      → Logs q (on_target root resolve permissions refused path f)
  unfolding on_target
  on_target-Logs q refused path f logs d h =
      elim (Option-cases (resolved root resolve permissions path)) [
        | inl e ↦ rw (e, on_target) (IsGrown-refl d)
        | inr (t, e) ↦ rw (e, on_target) (logs t d (ap (event_of q) (rw (e, on_target) refl) ∙ h))
      ]

  beside_root-Logs :
      (q : Request) (t : FilePath) (f : Disk → Reply)
      → Logs q f
      → Logs q (beside_root root resolve permissions t f)
  unfolding beside_root
  beside_root-Logs q t f logs d h = elim (Bool-cases (path_eq t root)) [
    | inl e ↦ rw (e, beside_root) (IsGrown-refl d)
    | inr e ↦ rw (e, beside_root) (logs d (ap (event_of q) (rw (e, beside_root) refl) ∙ h))
  ]

  allowed-Logs :
      (q : Request) (allowed : Bool) (f : Disk → Reply) (d : Disk)
      → Logs q f
      → event_of q (if allowed then f d else reply denied d).0 ≡ none
      → IsGrown d (if allowed then f d else reply denied d).1
  allowed-Logs q true f d logs h = logs d h
  allowed-Logs q false f d logs h = IsGrown-refl d

  stat_at-Logs : (q : Request) (t : FilePath) → Logs q (stat_at root resolve permissions t)
  unfolding stat_at
  stat_at-Logs q t d h = elim (Option-cases (node_at t d)) [
    | inl e ↦ rw (e, stat_at) (IsGrown-refl d)
    | inr (n, e) ↦ rw (e, stat_at) (IsGrown-refl d)
  ]

  list_at-Logs : (q : Request) (t : FilePath) → Logs q (list_at root resolve permissions t)
  unfolding list_at
  list_at-Logs q t d h = elim (Option-cases (node_at t d)) [
    | inl e ↦ rw (e, list_at) (IsGrown-refl d)
    | inr (directory, e) ↦ rw (e, list_at) (IsGrown-refl d)
    | inr (file c, e) ↦ rw (e, list_at) (IsGrown-refl d)
  ]

  open_at-Logs :
      (path : Text) (f : Flags) (t : FilePath)
      → Logs (open_file path f) (open_at root resolve permissions f t)
  unfolding open_at
  open_at-Logs path f t d h =
      allowed-Logs (open_file path f) (may_open root resolve permissions f)
        (λ d'. open_below (mode_of f) t (make_dirs [] (parent t) d')) d
        (λ d' k.
          open_below-Logs path f t d' (make_dirs [] (parent t) d')
            (make_dirs-IsGrown [] (parent t) d') k)
        h

  abbrev target : Code → Text → (FilePath → Disk → Reply) → Disk → Reply
  target = on_target root resolve permissions

  abbrev beside : FilePath → (Disk → Reply) → Disk → Reply
  beside = beside_root root resolve permissions

  -- Where a request of an SFTP client logs no event, all that was on the disk is still there with its
  -- content, and every file that is on it now was there before: at most directories are new.
  pub perform-IsGrown : (q : Request) → Logs q (perform root resolve permissions q)
  unfolding perform event_of
  perform-IsGrown (list_folder path) d h =
      allowed-Logs (list_folder path) (may root resolve permissions _)
        (target denied path (list_at root resolve permissions)) d
        (on_target-Logs (list_folder path) denied path (list_at root resolve permissions)
          (list_at-Logs (list_folder path)))
        h
  perform-IsGrown (stat path) d h =
      on_target-Logs (stat path) denied path (stat_at root resolve permissions)
        (stat_at-Logs (stat path)) d h
  perform-IsGrown (lstat path) d h =
      on_target-Logs (lstat path) denied path (stat_at root resolve permissions)
        (stat_at-Logs (lstat path)) d h
  perform-IsGrown (open_file path f) d h =
      on_target-Logs (open_file path f) denied path (open_at root resolve permissions f)
        (open_at-Logs path f) d h
  perform-IsGrown (remove path) d h =
      allowed-Logs (remove path) (may root resolve permissions _)
        (target failed path (λ t. beside t (unlink t))) d
        (on_target-Logs (remove path) failed path (λ t. beside t (unlink t))
          (λ t.
            beside_root-Logs (remove path) t (unlink t) (unlink-Logs (remove path) (λ k. cc) t)))
        h
  perform-IsGrown (rmdir path) d h =
      allowed-Logs (rmdir path) (may root resolve permissions _)
        (target failed path (λ t. beside t (remove_directory t))) d
        (on_target-Logs (rmdir path) failed path (λ t. beside t (remove_directory t))
          (λ t.
            beside_root-Logs (rmdir path) t (remove_directory t)
              (remove_directory-Logs (rmdir path) (λ k. cc) t)))
        h
  perform-IsGrown (mkdir path) d h =
      let make : FilePath → Disk → Reply = λ t d'. outcome_reply (make_dirs [] t d') in
      allowed-Logs (mkdir path) (may root resolve permissions _) (target failed path make) d
        (on_target-Logs (mkdir path) failed path make (λ t d' k.
          outcome-Logs (mkdir path) (λ i. cc) d' (make_dirs [] t d')
            (λ fails. make_dirs-IsGrown [] t d') k))
        h
  perform-IsGrown (rename old new) d h =
      let below : FilePath → FilePath → Disk → Reply =
        λ s t d'. rename_below s t (make_dirs [] (parent t) d') in
      let apart : FilePath → FilePath → Disk → Reply = λ s t. beside s (beside t (below s t)) in
      allowed-Logs (rename old new)
        (may root resolve permissions _ || may root resolve permissions _)
        (target failed old (λ s. target failed new (apart s))) d
        (on_target-Logs (rename old new) failed old (λ s. target failed new (apart s))
          (λ s. on_target-Logs (rename old new) failed new (apart s) (λ t.
            beside_root-Logs (rename old new) s (beside t (below s t)) (
              beside_root-Logs (rename old new) t (below s t) (λ d' k.
                rename_below-Logs (rename old new) (λ i. cc) s t d' (make_dirs [] (parent t) d')
                  (make_dirs-IsGrown [] (parent t) d') k)))))
        h
  perform-IsGrown (chattr path) d h = IsGrown-refl d
