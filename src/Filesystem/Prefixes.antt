-- ===== src/Filesystem/Prefixes.antt =====
-- The order of paths, and what a disk holds at a path after a change of it.
use pywings.Prelude.{
  ℕ, zero, suc, take, ◌≡◌, refl, ◌⊎◌, inl, inr, true, false, none, some, [], ◌∷◌, ◌++◌, text_eq_iff,
  text_eq_refl, text_eq, Text, sym, ap, ◌∙◌, and_both, length, drop, arith, if◌then◌else◌,
}
use pywings.Filesystem.Paths.{FilePath, is_under, path_eq}
use pywings.Filesystem.{Disk, Node, node_at, remove_tree, relocate, is_occupied, parent}
use native.Mathlib.Numerals.{unary_clauses}

pub is_under_refl : (p : FilePath) → is_under p p ≡ true
unfolding is_under
is_under_refl [] = refl
is_under_refl (a ∷ p) = ground (arith, text_eq_refl a, is_under_refl p)

pub is_under_trans :
    (p q r : FilePath) → is_under p q ≡ true → is_under q r ≡ true → is_under p r ≡ true
unfolding is_under
is_under_trans [] q r h k = refl
is_under_trans (a ∷ p) [] r h k = cc
is_under_trans (a ∷ p) (b ∷ q) [] h k = cc
is_under_trans (a ∷ p) (b ∷ q) (c ∷ r) h k =
    ground (arith, text_eq_iff a b, text_eq_iff b c, text_eq_iff a c, is_under_trans p q r)

pub is_under_antisym : (p q : FilePath) → is_under p q ≡ true → is_under q p ≡ true → p ≡ q
unfolding is_under
is_under_antisym [] [] h k = refl
is_under_antisym [] (b ∷ q) h k = cc
is_under_antisym (a ∷ p) [] h k = cc
is_under_antisym (a ∷ p) (b ∷ q) h k = ground (arith, text_eq_iff a b, is_under_antisym p q)

-- Two paths above a third one are one above the other.
pub is_under_comparable :
    (p q r : FilePath)
    → is_under p r ≡ true
    → is_under q r ≡ true
    → (is_under p q ≡ true) ⊎ (is_under q p ≡ true)
unfolding is_under
is_under_comparable [] q r h k = inl refl
is_under_comparable (a ∷ p) [] r h k = inr refl
is_under_comparable (a ∷ p) (b ∷ q) [] h k = cc
is_under_comparable (a ∷ p) (b ∷ q) (c ∷ r) h k = ground (
  arith,
  text_eq_iff a c,
  text_eq_iff b c,
  text_eq_iff a b,
  text_eq_iff b a,
  is_under_comparable p q r,
)

pub is_under-append : (p q : FilePath) → is_under p (p ++ q) ≡ true
unfolding is_under
is_under-append [] q = refl
is_under-append (a ∷ p) q = ground (arith, text_eq_refl a, is_under-append p q)

pub path_eq-path : (p q : FilePath) → path_eq p q ≡ true → p ≡ q
unfolding path_eq
path_eq-path p q h = is_under_antisym p q (ground arith) (ground arith)

pub node_at-remove_tree :
    (t q : FilePath) (d : Disk)
    → node_at q (remove_tree t d) ≡ (if is_under t q then none else node_at q d)
unfolding node_at remove_tree
node_at-remove_tree t q [] = ground arith
node_at-remove_tree t q ((k, n) ∷ d) = ground (arith, node_at-remove_tree t q d, path_eq-path q k)

-- A move leaves what is neither in its source nor in its destination.
pub node_at-relocate :
    (s t q : FilePath) (d : Disk)
    → is_under s q ≡ false
    → is_under t q ≡ false
    → node_at q (relocate s t d) ≡ node_at q d
unfolding node_at relocate
node_at-relocate s t q [] away apart = refl
node_at-relocate s t q ((k, n) ∷ d) away apart = ground (
  arith,
  node_at-relocate s t q d,
  path_eq-path q k,
  path_eq-path q (t ++ drop (length s) k),
  is_under-append t (drop (length s) k),
)

pub is_occupied-node_at :
    (t s : FilePath) (n : Node) (d : Disk)
    → is_under t s ≡ true
    → is_under s t ≡ false
    → node_at s d ≡ some n
    → is_occupied t d ≡ true
unfolding node_at is_occupied
is_occupied-node_at t s n [] under strict h = cc
is_occupied-node_at t s n ((k, m) ∷ d) under strict h =
    ground (arith, is_occupied-node_at t s n d under strict, path_eq-path s k)

pub is_under-take : (n : ℕ) (t : FilePath) → is_under (take n t) t ≡ true
unfolding is_under
is_under-take zero t = refl
is_under-take (suc n) [] = refl
is_under-take (suc n) (x ∷ t) = ground (arith, text_eq_refl x, is_under-take n t)

parent-deeper : (b c : Text) (t : FilePath) → parent (b ∷ c ∷ t) ≡ b ∷ parent (c ∷ t)
parent-deeper b c t = simp unary_clauses refl

-- What is below a path and not the path itself has its parent below the path too.
pub is_under-parent :
    (root t : FilePath) → is_under root t ≡ true → (is_under root (parent t) ≡ true) ⊎ (t ≡ root)
unfolding is_under
is_under-parent [] t h = inl refl
is_under-parent (a ∷ root) [] h = cc
is_under-parent (a ∷ []) (b ∷ []) h =
    inr (ap (λ c. c ∷ []) (sym ((text_eq_iff a b).0 (and_both _ _ h).0)))
is_under-parent (a ∷ c ∷ root) (b ∷ []) h =
    let k : false ≡ true = (and_both (text_eq a b) false h).1 in cc
is_under-parent (a ∷ root) (b ∷ c ∷ t) h =
    let (same, inner) = and_both (text_eq a b) (is_under root (c ∷ t)) h in
    elim (is_under-parent root (c ∷ t) inner) [
      | inl k ↦ inl (ap (λ p. is_under (a ∷ root) p) (parent-deeper b c t) ∙ rw same k)
      | inr e ↦ inr (let f = (text_eq_iff a b).0 same in cc (e))
    ]
