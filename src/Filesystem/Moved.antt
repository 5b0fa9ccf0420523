-- ===== src/Filesystem/Moved.antt =====
-- Where the nodes of a move are afterwards.
use pywings.Prelude.{
  ◌≡◌, refl, true, false, none, [], ◌∷◌, ◌++◌, length, drop, text_eq_refl, text_eq_iff, arith,
  Bool-cases, inl, inr,
}
use pywings.Filesystem.{Disk, Node, node_at, relocate}
use pywings.Filesystem.Paths.{FilePath, is_under, path_eq}
use pywings.Filesystem.Prefixes.{path_eq-path, is_under-append}

-- Nothing is left at the source.
pub node_at-relocate_source :
    (s t : FilePath) (d : Disk) → is_under t s ≡ false → node_at s (relocate s t d) ≡ none
unfolding node_at relocate path_eq
node_at-relocate_source s t [] h = refl
node_at-relocate_source s t ((k, n) ∷ d) h = ground (
  arith,
  node_at-relocate_source s t d h,
  path_eq-path s (t ++ drop (length s) k),
  is_under-append t (drop (length s) k),
)

-- The rest of a path below another one.
under-drop : (s k : FilePath) → is_under s k ≡ true → path_eq s k ≡ is_under (drop (length s) k) []
unfolding is_under path_eq
under-drop [] k h = refl
under-drop (a ∷ s) [] h = cc
under-drop (a ∷ s) (b ∷ k) h = ground (arith, under-drop s k, text_eq_iff a b, text_eq_iff b a)

append-under : (t r : FilePath) → path_eq t (t ++ r) ≡ is_under r []
unfolding is_under path_eq
append-under [] r = refl
append-under (a ∷ t) r = ground (arith, append-under t r, text_eq_refl a)

head-none :
    (t k : FilePath) (n : Node) (d : Disk)
    → node_at t ((k, n) ∷ d) ≡ none
    → (path_eq t k ≡ false) × (node_at t d ≡ none)
unfolding node_at
head-none t k n d h = ground arith

apart : (s k : FilePath) → is_under s k ≡ false → path_eq s k ≡ false
unfolding path_eq
apart s k h = ground arith

-- The node of the source stands at the destination, where nothing stood.
pub node_at-relocate_destination :
    (s t : FilePath) (d : Disk) → node_at t d ≡ none → node_at t (relocate s t d) ≡ node_at s d
unfolding node_at relocate
node_at-relocate_destination s t [] h = refl
node_at-relocate_destination s t ((k, n) ∷ d) h =
    let (first, rest) = head-none t k n d h in
    let later = node_at-relocate_destination s t d rest in
    elim (Bool-cases (is_under s k)) [
      | inl e ↦ ground (arith, e, append-under t (drop (length s) k), under-drop s k e, later)
      | inr e ↦ ground (arith, e, first, later, apart s k e)
    ]
