-- ===== src/Filesystem/Confined.antt =====
-- No operation changes anything outside the server's directory.
use pywings.Prelude.{
  ◌-◌, ◌≡◌, ◌≢◌, refl, ap, ◌∙◌, ◌⊎◌, inl, inr, true, false, none, some, List, [], ◌∷◌, ◌++◌, length,
  arith, Bool-cases, Option-cases,
}
use mathlib.Core.List.{append_assoc}
use pywings.Result.{ok, err}
use pywings.Filesystem.Paths.{FilePath, is_under}
use pywings.Filesystem.Prefixes.{
  is_under-take, is_under_refl, is_under_trans, is_under_antisym, is_under_comparable,
  is_under-append, path_eq-path, node_at-remove_tree, node_at-relocate,
}
use pywings.Filesystem.{
  Disk, Node, directory, file, node_at, remove_tree, relocate, put, Outcome, make_dirs, parent,
  and_then, for_each,
}

module _ (root : FilePath) where
  -- The server's directory is one, and so is everything above it.
  abbrev pub IsRooted : Disk → Type 0
  IsRooted d = (p : FilePath) → is_under p root ≡ true → node_at p d ≡ some directory

  -- From one disk to another, everything outside the server's directory stays.
  pub record IsKept (d e : Disk) : Type 0 where
    pub outside : (q : FilePath) → is_under root q ≡ false → node_at q e ≡ node_at q d
    pub rooted : node_at root e ≡ some directory

  pub IsKept-IsRooted : (d e : Disk) → IsRooted d → IsKept d e → IsRooted e
  IsKept-IsRooted d e r k p above = elim (Bool-cases (is_under root p)) [
    | inl below ↦ ap (λ x. node_at x e) (is_under_antisym p root above below) ∙ k.rooted
    | inr away ↦ k.outside p away ∙ r p above
  ]

  pub IsKept-trans : (c d e : Disk) → IsKept c d → IsKept d e → IsKept c e
  IsKept-trans c d e k l = record {
    outside = λ q away. l.outside q away ∙ k.outside q away;
    rooted = l.rooted;
  }

  pub IsKept-refl : (d : Disk) → IsRooted d → IsKept d d
  IsKept-refl d r = record { outside = λ q away. refl; rooted = r root (is_under_refl root) }

  -- What holds no directory is not the server's directory.
  pub file-other : (t : FilePath) (d : Disk) → IsRooted d → node_at t d ≢ some directory → t ≢ root
  file-other t d r other same = other (ap (λ p. node_at p d) same ∙ r root (is_under_refl root))

  pub put-IsKept :
      (p : FilePath) (n : Node) (d : Disk)
      → IsRooted d
      → is_under root p ≡ true
      → p ≢ root
      → IsKept d (put p n d)
  unfolding node_at
  put-IsKept p n d r inner other = record {
    outside = λ q away. ground (arith, path_eq-path q p);
    rooted = ground (arith, path_eq-path root p, r root (is_under_refl root));
  }

  pub remove_tree-IsKept :
      (t : FilePath) (d : Disk)
      → IsRooted d
      → is_under root t ≡ true
      → t ≢ root
      → IsKept d (remove_tree t d)
  remove_tree-IsKept t d r inner other = record {
    outside = λ q away. ground (arith, node_at-remove_tree t q d, is_under_trans root t q);
    rooted =
        ground (
          arith,
          node_at-remove_tree t root d,
          is_under_antisym t root,
          r root (is_under_refl root),
        );
  }

  pub relocate-IsKept :
      (s t : FilePath) (d : Disk)
      → IsRooted d
      → is_under root s ≡ true
      → s ≢ root
      → is_under root t ≡ true
      → t ≢ root
      → IsKept d (relocate s t d)
  relocate-IsKept s t d r inner other within apart = record {
    outside = λ q away.
        node_at-relocate s t q d (ground (arith, is_under_trans root s q))
          (ground (arith, is_under_trans root t q));
    rooted =
        node_at-relocate s t root d (ground (arith, is_under_antisym s root))
          (ground (arith, is_under_antisym t root))
        ∙ r root (is_under_refl root);
  }

  -- The directories above a path that the operations reach.
  abbrev pub IsReached : FilePath → Type 0
  IsReached p =
      (q : FilePath) → is_under q p ≡ true → (is_under q root ≡ true) ⊎ (is_under root q ≡ true)

  pub parent-IsReached : (t : FilePath) → is_under root t ≡ true → IsReached (parent t)
  parent-IsReached t inner q above =
      is_under_comparable q root t
        (is_under_trans q (parent t) t above (is_under-take (length t - 1) t)) inner

  pub whole-IsReached : (t : FilePath) → is_under root t ≡ true → IsReached t
  whole-IsReached t inner q above = is_under_comparable q root t above inner

  absent-inside :
      (here : FilePath) (d : Disk)
      → IsRooted d
      → node_at here d ≡ none
      → (is_under here root ≡ true) ⊎ (is_under root here ≡ true)
      → (is_under root here ≡ true) × (here ≢ root)
  absent-inside here d r e (inl above) = let f = r here above in cc
  absent-inside here d r e (inr inner) = (
    inner,
    λ same. let f = r root (is_under_refl root) in let g = ap (λ p. node_at p d) same in cc,
  )

  pub make_dirs-IsKept :
      (done rest : FilePath) (d : Disk)
      → IsRooted d
      → IsReached (done ++ rest)
      → IsKept d (make_dirs done rest d).1
  unfolding make_dirs
  make_dirs-IsKept done [] d r reached = IsKept-refl d r
  make_dirs-IsKept done (x ∷ rest) d r reached =
      let here = done ++ (x ∷ []) in
      let whole : here ++ rest ≡ done ++ (x ∷ rest) = append_assoc done (x ∷ []) rest in
      let later : IsReached (here ++ rest) = λ q above. reached q (rw (← whole) above) in
      elim (Option-cases (node_at here d)) [
        | inl e ↦
            let (inner, other) =
              absent-inside here d r e (later here (is_under-append here rest)) in
            let k = put-IsKept here directory d r inner other in
            rw (e, make_dirs)
              (IsKept-trans d (put here directory d) (make_dirs here rest (put here directory d)).1
                k
                (make_dirs-IsKept here rest (put here directory d)
                  (IsKept-IsRooted d (put here directory d) r k) later))
        | inr (directory, e) ↦ rw (e, make_dirs) (make_dirs-IsKept here rest d r later)
        | inr (file c, e) ↦ rw (e, make_dirs) (IsKept-refl d r)
      ]

  -- A step that keeps the outside, on every rooted disk.
  abbrev pub Keeps : (Disk → Outcome) → Type 0
  Keeps f = (d : Disk) → IsRooted d → IsKept d (f d).1

  pub and_then-IsKept :
      (d : Disk) (o : Outcome) (f : Disk → Outcome)
      → IsRooted d
      → IsKept d o.1
      → Keeps f
      → IsKept d (and_then o f).1
  unfolding and_then
  and_then-IsKept d (err e, d') f r k keeps = k
  and_then-IsKept d (ok u, d') f r k keeps =
      IsKept-trans d d' (f d').1 k (keeps d' (IsKept-IsRooted d d' r k))

  pub for_each-Keeps :
      {A : Type 0} (f : A → Disk → Outcome) (xs : List A)
      → ((x : A) → Keeps (f x))
      → Keeps (for_each f xs)
  unfolding for_each
  for_each-Keeps f [] keeps d r = IsKept-refl d r
  for_each-Keeps f (x ∷ xs) keeps d r =
      and_then-IsKept d (f x d) (λ d'. for_each f xs d') r (keeps x d r) (for_each-Keeps f xs keeps)
