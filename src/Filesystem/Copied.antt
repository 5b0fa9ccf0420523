-- ===== src/Filesystem/Copied.antt =====
-- `copy` ends and gives the file a name of its own.
use mathlib.Core.Path.{subst}
use pywings.Prelude.{
  ℕ, zero, suc, ◌≤◌, ◌<◌, ◌≡◌, ◌≢◌, refl, ap, sym, ◌∙◌, none, some, List, [], ◌∷◌, ◌++◌, All,
  length, leb, Text, lit, arith, Bool-cases, Option-cases, inl, inr,
}
use mathlib.Core.List.{reverse, reverse-append, reverse-reverse}
use pywings.Numbers.Decimal.{whole_text_injective}
use pywings.Result.{ok}
use pywings.Filesystem.{Disk, file, node_at, put, parent, path, on_path}
use pywings.Filesystem.Paths.{FilePath}
use pywings.Filesystem.Crowded.{Distinct, AllTaken, length-AllTaken}
use pywings.Filesystem.Copying.{
  name_of, stem_suffix, numbering, copy_name, candidate, free_path, copy_to, copy_at, copy,
}

module _ {A : Type 0} where
  append-cancel_left : (xs ys zs : List A) → xs ++ ys ≡ xs ++ zs → ys ≡ zs
  append-cancel_left [] ys zs h = h
  append-cancel_left (x ∷ xs) ys zs h = append-cancel_left xs ys zs (cc h)

  pub append-cancel_right : (xs ys zs : List A) → ys ++ xs ≡ zs ++ xs → ys ≡ zs
  append-cancel_right xs ys zs h =
      let turned : reverse xs ++ reverse ys ≡ reverse xs ++ reverse zs =
        sym (reverse-append ys xs) ∙ ap reverse h ∙ reverse-append zs xs in
      sym (reverse-reverse ys)
      ∙ ap reverse (append-cancel_left (reverse xs) (reverse ys) (reverse zs) turned)
      ∙ reverse-reverse zs

numbering_injective : (n m : ℕ) → 1 ≤ n → 1 ≤ m → numbering n ≡ numbering m → n ≡ m
unfolding numbering
numbering_injective n m h k e = elim (Bool-cases (leb n 1)) [
  | inl f ↦ elim (Bool-cases (leb m 1)) [
    | inl g ↦ ground (arith, f, g, h, k)
    | inr g ↦ ground (arith, f, g, e)
  ]
  | inr f ↦ elim (Bool-cases (leb m 1)) [
    | inl g ↦ ground (arith, f, g, e)
    | inr g ↦ ground (arith, f, g, e, whole_text_injective n m)
  ]
]

candidate_injective :
    (source : FilePath) (n m : ℕ) → 1 ≤ n → 1 ≤ m → candidate source n ≡ candidate source m → n ≡ m
unfolding candidate copy_name
candidate_injective source n m h k e =
    let (stem, suffix) = stem_suffix (name_of source) in
    let names : copy_name (stem, suffix) n ≡ copy_name (stem, suffix) m =
      cc (append-cancel_left (parent source) _ _ e) in
    let ends = append-cancel_left (lit " copy") _ _ (append-cancel_left stem _ _ names) in
    numbering_injective n m h k (append-cancel_right suffix (numbering n) (numbering m) ends)

module _ (source : FilePath) where
  -- Some of the candidates, one after the other.
  candidates : ℕ → ℕ → List FilePath
  candidates zero n = []
  candidates (suc count) n = candidate source n ∷ candidates count (suc n)

  length-candidates : (count n : ℕ) → length (candidates count n) ≡ count
  unfolding candidates
  length-candidates zero n = refl
  length-candidates (suc count) n = omega (arith, length-candidates count (suc n))

  candidates-later :
      (n count m : ℕ) → 1 ≤ n → n < m → All (λ q. candidate source n ≢ q) (candidates count m)
  unfolding candidates
  candidates-later n zero m h k = tt
  candidates-later n (suc count) m h k = (
    λ e.
        let same = candidate_injective source n m h (omega (arith, h, k)) e in
        absurd (omega (arith, same, k)),
    candidates-later n count (suc m) h (omega (arith, k)),
  )

  candidates-Distinct : (count n : ℕ) → 1 ≤ n → Distinct (candidates count n)
  unfolding candidates
  candidates-Distinct zero n h = tt
  candidates-Distinct (suc count) n h = (
    candidates-later n count (suc n) h (omega arith),
    candidates-Distinct count (suc n) (omega arith),
  )

  free_path-AllTaken :
      (fuel n : ℕ) (d : Disk) → free_path fuel n source d ≡ none → AllTaken d (candidates fuel n)
  unfolding free_path candidates
  free_path-AllTaken zero n d h = tt
  free_path-AllTaken (suc fuel) n d h = elim (Option-cases (node_at (candidate source n) d)) [
    | inl e ↦ ground (arith, h, e)
    | inr (m, e) ↦ (λ f. cc (e, f), free_path-AllTaken fuel (suc n) d (ground (arith, h, e)))
  ]

  pub free_path-free :
      (fuel n : ℕ) (d : Disk) {t : FilePath}
      → free_path fuel n source d ≡ some t
      → (node_at t d ≡ none) × ((m : ℕ) × (n ≤ m) × (t ≡ candidate source m))
  unfolding free_path
  free_path-free zero n d h = cc
  free_path-free (suc fuel) n d {t} h = elim (Option-cases (node_at (candidate source n) d)) [
    | inl e ↦
        let same : candidate source n ≡ t = ground (arith, h, e) in
        (subst (λ p. node_at p d ≡ none) same e, (n, omega arith, sym same))
    | inr (m, e) ↦
        let (free, (i, later, same)) = free_path-free fuel (suc n) d (ground (arith, h, e)) in
        (free, (i, omega (arith, later), same))
  ]

  -- More rounds than the disk has entries find a free name.
  free_path-found : (d : Disk) → (t : FilePath) × (free_path (suc (length d)) 1 source d ≡ some t)
  free_path-found d = elim (Option-cases (free_path (suc (length d)) 1 source d)) [
    | inr found ↦ found
    | inl e ↦ absurd (
        omega (
          arith,
          length-candidates (suc (length d)) 1,
          length-AllTaken d (candidates (suc (length d)) 1)
              (candidates-Distinct (suc (length d)) 1 (omega arith))
              (free_path-AllTaken (suc (length d)) 1 d e),
        ))
  ]

-- A copy of a file of the server, where the path resolves below the server and stands for a file: the
-- search for a name ends after at most one round more than the disk has entries; nothing stands at
-- the name that it finds, which is beside the file and has the form of a copy's name with some number;
-- and the copy succeeds, with the same content at that name and all else as it was.
pub copy-adds :
    (root : FilePath) (resolve : FilePath → FilePath) (location : Text) (source : FilePath)
    (content : List ℕ) (d : Disk)
    → path root resolve location ≡ ok source
    → node_at source d ≡ some (file content)
    → (n : ℕ) × (1 ≤ n)
      × (node_at (candidate source n) d ≡ none)
      × (copy root resolve location d ≡ (ok tt, put (candidate source n) (file content) d))
unfolding copy on_path copy_at copy_to
copy-adds root resolve location source content d h e =
    let (t, found) = free_path-found source d in
    let (free, (n, later, same)) = free_path-free source (suc (length d)) 1 d found in
    (
      n,
      later,
      subst (λ p. node_at p d ≡ none) same free,
      rw (h, e, found, copy, on_path, copy_at) (ap (λ p. (ok tt, put p (file content) d)) same),
    )
