-- ===== src/Filesystem/Crowded.antt =====
-- A disk has no more paths with a node than entries.
use pywings.Prelude.{
  suc, ◌≤◌, ◌≡◌, ◌≢◌, refl, sym, ◌∙◌, false, none, List, [], ◌∷◌, All, length, arith, Bool-cases,
  inl, inr, if◌then◌else◌,
}
use pywings.Filesystem.{Disk, Node, node_at}
use pywings.Filesystem.Paths.{FilePath, path_eq}
use pywings.Filesystem.Prefixes.{path_eq-path}

-- No two paths of the list are equal.
abbrev pub Distinct : List FilePath → Type 0
Distinct [] = Unit
Distinct (p ∷ ps) = All (λ q. p ≢ q) ps × Distinct ps

abbrev pub AllTaken : Disk → List FilePath → Type 0
AllTaken d ps = All (λ p. node_at p d ≢ none) ps

-- The list without the first path that is equal to `q`.
without : FilePath → List FilePath → List FilePath
without q [] = []
without q (p ∷ ps) = let rest = without q ps in if path_eq p q then ps else p ∷ rest

module _ (q : FilePath) where
  All-without : (P : FilePath → Type 0) (ps : List FilePath) → All P ps → All P (without q ps)
  unfolding without
  All-without P [] h = tt
  All-without P (p ∷ ps) h = elim (Bool-cases (path_eq p q)) [
    | inl e ↦ rw e h.1
    | inr e ↦ rw e (h.0, All-without P ps h.1)
  ]

  without-Distinct : (ps : List FilePath) → Distinct ps → Distinct (without q ps)
  unfolding without
  without-Distinct [] h = tt
  without-Distinct (p ∷ ps) h = elim (Bool-cases (path_eq p q)) [
    | inl e ↦ rw e h.1
    | inr e ↦ rw e (All-without (λ r. p ≢ r) ps h.0, without-Distinct ps h.1)
  ]

  length-without : (ps : List FilePath) → length ps ≤ suc (length (without q ps))
  unfolding without
  length-without [] = omega arith
  length-without (p ∷ ps) = ground (arith, length-without ps)

  module _ (n : Node) (d : Disk) where
    -- A path that is not `q` has its node in the rest of the disk.
    taken-rest :
        (p : FilePath) → path_eq p q ≡ false → node_at p ((q, n) ∷ d) ≢ none → node_at p d ≢ none
    unfolding node_at
    taken-rest p e h k = h (rw e k)

    taken-others :
        (p : FilePath) (ps : List FilePath)
        → p ≡ q
        → All (λ r. p ≢ r) ps
        → AllTaken ((q, n) ∷ d) ps
        → AllTaken d ps
    taken-others p [] same h k = tt
    taken-others p (r ∷ ps) same h k =
        (taken-rest r (apart r (λ e. h.0 (same ∙ sym e))) k.0, taken-others p ps same h.1 k.1)
      where
        apart : (r : FilePath) → r ≢ q → path_eq r q ≡ false
        apart r other = elim (Bool-cases (path_eq r q)) [
          | inl e ↦ absurd (other (path_eq-path r q e))
          | inr e ↦ e
        ]

    AllTaken-without :
        (ps : List FilePath) → Distinct ps → AllTaken ((q, n) ∷ d) ps → AllTaken d (without q ps)
    unfolding without
    AllTaken-without [] h k = tt
    AllTaken-without (p ∷ ps) h k = elim (Bool-cases (path_eq p q)) [
      | inl e ↦ rw e (taken-others p ps (path_eq-path p q e) h.0 k.1)
      | inr e ↦ rw e (taken-rest p e k.0, AllTaken-without ps h.1 k.1)
    ]

pub length-AllTaken :
    (d : Disk) (ps : List FilePath) → Distinct ps → AllTaken d ps → length ps ≤ length d
unfolding node_at
length-AllTaken [] [] h k = omega arith
length-AllTaken [] (p ∷ ps) h k = absurd (k.0 refl)
length-AllTaken ((q, n) ∷ d) ps h k = omega (
  arith,
  length-without q ps,
  length-AllTaken d (without q ps) (without-Distinct q ps h) (AllTaken-without q n d ps h k),
)
