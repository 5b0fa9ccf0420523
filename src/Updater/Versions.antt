-- ===== src/Updater/Versions.antt =====
-- The order of versions.
use pywings.Prelude.{
  ◌≡◌, refl, ap, inl, inr, true, false, some, List, [], ◌∷◌, Text, arith, Bool-cases,
}
use pywings.Numbers.{Whole, plus, minus}
use pywings.Updater.{less, is_greater, parse_version, check_update}

less_irrefl : (a : Whole) → less a a ≡ false
unfolding less
less_irrefl (plus a) = ground arith
less_irrefl (minus a) = ground arith

less_trans : (a b c : Whole) → less a b ≡ true → less b c ≡ true → less a c ≡ true
unfolding less
less_trans (plus a) (plus b) (plus c) h k = ground arith
less_trans (plus a) (plus b) (minus c) h k = cc
less_trans (plus a) (minus b) c h k = cc
less_trans (minus a) (plus b) (plus c) h k = refl
less_trans (minus a) (plus b) (minus c) h k = cc
less_trans (minus a) (minus b) (plus c) h k = refl
less_trans (minus a) (minus b) (minus c) h k = ground arith

less_antisym : (a b : Whole) → less a b ≡ false → less b a ≡ false → a ≡ b
unfolding less
less_antisym (plus a) (plus b) h k = let e : a ≡ b = ground arith in ap plus e
less_antisym (plus a) (minus b) h k = cc
less_antisym (minus a) (plus b) h k = cc
less_antisym (minus a) (minus b) h k = let e : a ≡ b = ground arith in ap minus e

is_greater_irrefl : (vs : List Whole) → is_greater vs vs ≡ false
unfolding is_greater
is_greater_irrefl [] = refl
is_greater_irrefl (a ∷ vs) = ground (arith, less_irrefl a, is_greater_irrefl vs)

is_greater_trans :
    (us vs ws : List Whole)
    → is_greater us vs ≡ true
    → is_greater vs ws ≡ true
    → is_greater us ws ≡ true
unfolding is_greater
is_greater_trans [] vs ws h k = cc
is_greater_trans (a ∷ us) [] ws h k = cc
is_greater_trans (a ∷ us) (b ∷ vs) [] h k = refl
is_greater_trans (a ∷ us) (b ∷ vs) (c ∷ ws) h k = ground (
  arith,
  is_greater_trans us vs ws,
  less_antisym a b,
  less_antisym b c,
  less_trans c b a,
  less_irrefl a,
  less_irrefl b,
)

-- Updates that `check_update` offers one after the other, from one version to another.
pub data Updates (a : Text) : Text → Type 0 where
  one : (b : Text) → (check_update (some b) a).0 ≡ true → Updates a b
  more : (b c : Text) → Updates a b → (check_update (some c) b).0 ≡ true → Updates a c

offered-is_greater :
    (a b : Text)
    → (check_update (some b) a).0 ≡ true
    → is_greater (parse_version b) (parse_version a) ≡ true
unfolding check_update
offered-is_greater a b h = ground arith

Updates-is_greater :
    (a b : Text) → Updates a b → is_greater (parse_version b) (parse_version a) ≡ true
Updates-is_greater a _ (one b h) = offered-is_greater a b h
Updates-is_greater a _ (more b c us h) =
    is_greater_trans (parse_version c) (parse_version b) (parse_version a)
      (offered-is_greater b c h) (Updates-is_greater a b us)

-- Updates never lead back: after any updates, each offered by `check_update`, the version that they
-- started from is not offered.
pub check_update_acyclic : (a b : Text) → Updates a b → (check_update (some a) b).0 ≡ false
check_update_acyclic a b us = elim (Bool-cases (check_update (some a) b).0) [
  | inr refused ↦ refused
  | inl back ↦
      let loop =
        is_greater_trans (parse_version a) (parse_version b) (parse_version a)
          (offered-is_greater b a back) (Updates-is_greater a b us) in
      let none_greater = is_greater_irrefl (parse_version a) in cc
]
