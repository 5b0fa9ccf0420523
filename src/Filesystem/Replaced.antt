-- ===== src/Filesystem/Replaced.antt =====
-- A file or a directory that takes the place of another one, inside the server's directory.
use pywings.Prelude.{
  ◌≡◌, ◌≢◌, refl, sym, ap, ◌∙◌, inl, inr, true, false, Option, none, some, Bool-cases, Option-cases,
  if◌then◌else◌,
}
use pywings.Result.{ok, os_error}
use pywings.Filesystem.Paths.{FilePath, is_under, path_eq}
use pywings.Filesystem.Prefixes.{is_under_refl, is_under_antisym}
use pywings.Filesystem.{
  Disk, Node, directory, file, node_at, remove_tree, relocate, is_occupied, refuse, replace_node,
  replace,
}
use mathlib.Core.Path.{subst}
use pywings.Filesystem.Prefixes.{is_occupied-node_at}
use pywings.Filesystem.Confined.{
  IsKept, IsRooted, IsKept-IsRooted, IsKept-trans, IsKept-refl, remove_tree-IsKept, relocate-IsKept,
}

module _ (root : FilePath) where
  take_place-IsKept :
      (s t : FilePath) (d : Disk)
      → IsRooted root d
      → is_under root s ≡ true
      → s ≢ root
      → is_under root t ≡ true
      → t ≢ root
      → IsKept root d (relocate s t (remove_tree t d))
  take_place-IsKept s t d r inner other within apart =
      let k = remove_tree-IsKept root t d r within apart in
      IsKept-trans root d (remove_tree t d) (relocate s t (remove_tree t d)) k (
        relocate-IsKept root s t (remove_tree t d) (IsKept-IsRooted root d (remove_tree t d) r k)
          inner other within apart)

  replace_node-IsKept :
      (s t : FilePath) (n : Node) (m : Option Node) (d : Disk)
      → IsRooted root d
      → is_under root s ≡ true
      → s ≢ root
      → is_under root t ≡ true
      → t ≢ root
      → IsKept root d (replace_node s t n m d).1
  unfolding replace_node
  replace_node-IsKept s t (file c) (some directory) d r inner other within apart =
      IsKept-refl root d r
  replace_node-IsKept s t (file c) none d r inner other within apart =
      take_place-IsKept s t d r inner other within apart
  replace_node-IsKept s t (file c) (some (file b)) d r inner other within apart =
      take_place-IsKept s t d r inner other within apart
  replace_node-IsKept s t directory (some (file c)) d r inner other within apart =
      IsKept-refl root d r
  replace_node-IsKept s t directory none d r inner other within apart =
      relocate-IsKept root s t d r inner other within apart
  replace_node-IsKept s t directory (some directory) d r inner other within apart =
      elim (is_occupied t d)
        as (λ b.
          IsKept root d
            (if b then refuse os_error d else (ok tt, relocate s t (remove_tree t d))).1) [
              | true ↦ IsKept-refl root d r
              | false ↦ take_place-IsKept s t d r inner other within apart
            ]

  -- The server's directory is no place for a node inside it.
  replace_root :
      (s : FilePath) (n : Node) (d : Disk)
      → is_occupied root d ≡ true
      → (replace_node s root n (some directory) d).1 ≡ d
  unfolding replace_node
  replace_root s (file c) d full = refl
  replace_root s directory d full = rw full refl

  present-IsKept :
      (s t : FilePath) (n : Node) (d : Disk)
      → IsRooted root d
      → is_under root s ≡ true
      → s ≢ root
      → is_under root t ≡ true
      → is_under s t ≡ false
      → node_at s d ≡ some n
      → IsKept root d (replace_node s t n (node_at t d) d).1
  present-IsKept s t n d r inner other within apart there = elim (Bool-cases (is_under t root)) [
    | inr lower ↦
        replace_node-IsKept s t n (node_at t d) d r inner other within
          (λ same. let f = ap (λ p. is_under p root) same in let g = is_under_refl root in cc)
    | inl above ↦
        let same = is_under_antisym t root above within in
        subst (λ x. IsKept root d (replace_node s x n (node_at x d) d).1) (sym same)
          (rw (r root (is_under_refl root)) (
            rw
              (replace_root s n d
                (is_occupied-node_at root s n d inner (ap (is_under s) (sym same) ∙ apart) there))
              (IsKept-refl root d r)))
  ]

  pub replace-IsKept :
      (s t : FilePath) (d : Disk)
      → IsRooted root d
      → is_under root s ≡ true
      → is_under root t ≡ true
      → IsKept root d (replace s t d).1
  unfolding replace
  replace-IsKept s t d r inner within = elim (Bool-cases (path_eq s t)) [
    | inl e ↦ rw (e, replace) (IsKept-refl root d r)
    | inr e ↦ elim (Bool-cases (is_under s t)) [
      | inl f ↦ rw (e, f, replace) (IsKept-refl root d r)
      | inr f ↦ elim (Option-cases (node_at s d)) [
        | inl g ↦ rw (e, f, g, replace) (IsKept-refl root d r)
        | inr (n, g) ↦
            rw (e, f, g, replace)
              (present-IsKept s t n d r inner (λ same. cc (ap (λ p. is_under p t) same)) within f g)
      ]
    ]
  ]
