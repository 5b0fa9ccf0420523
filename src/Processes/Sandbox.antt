-- ===== src/Processes/Sandbox.antt =====
-- The volumes that keep a server's process in its sandbox (`_volumes` of wings/processes.py).
use pywings.Prelude.{
  ◌≡◌, refl, ap, ◌⊎◌, inl, inr, true, ◌||◌, ◌++◌, List, [], ◌∷◌, All, any, Text, text_eq_refl,
  text_eq_iff, lit, text_eq, arith, Bool-cases,
}
use pywings.Json.{Items}
use pywings.Filesystem.Paths.{FilePath}
use pywings.Filesystem.Prefixes.{is_under_refl, is_under-append}
use pywings.Processes.Mounts.{targets_of, volume, is_allowed, unless_mounted, tmp, shm}

All-append : {A : Type 0} (P : A → Type 0) (xs ys : List A) → All P xs → All P ys → All P (xs ++ ys)
All-append P [] ys p q = q
All-append P (x ∷ xs) ys p q = (p.0, All-append P xs ys p.1 q)

any-append :
    (t : Text) (xs ys : List Text)
    → any (text_eq t) (xs ++ ys) ≡ (any (text_eq t) xs || any (text_eq t) ys)
any-append t [] ys = refl
any-append t (x ∷ xs) ys = ground (arith, any-append t xs ys)

-- Something is mounted at the target.
pub record HasTarget (target : Text) (vs : List Text) : Type 0 where
  pub from : FilePath
  pub listed : any (text_eq (volume from target)) vs ≡ true

HasTarget-left : (t : Text) (xs ys : List Text) → HasTarget t xs → HasTarget t (xs ++ ys)
HasTarget-left t xs ys h = record {
  from = h.from;
  listed = ground (arith, any-append (volume h.from t) xs ys, h.listed);
}

pub HasTarget-right : (t : Text) (xs ys : List Text) → HasTarget t ys → HasTarget t (xs ++ ys)
HasTarget-right t xs ys h = record {
  from = h.from;
  listed = ground (arith, any-append (volume h.from t) xs ys, h.listed);
}

pub HasTarget-head :
    (source : FilePath) (t u w : Text) (ws : List Text)
    → w ≡ volume source u
    → text_eq t u ≡ true
    → HasTarget t (w ∷ ws)
HasTarget-head source t u w ws h e = record {
  from = source;
  listed =
      ground (arith, h, ap (volume source) ((text_eq_iff t u).0 e), text_eq_refl (volume source t));
}

unless_mounted-HasTarget :
    (targets : List Text) (source : FilePath) (t : Text)
    → (any (text_eq t) targets ≡ true) ⊎ HasTarget t (unless_mounted targets source t)
unfolding unless_mounted
unless_mounted-HasTarget targets source t = elim (Bool-cases (any (text_eq t) targets)) [
  | inl e ↦ inl e
  | inr e ↦
      inr (rw e (record { from = source; listed = ground (arith, text_eq_refl (volume source t)) }))
]

module _ (allowed : List FilePath) (root : FilePath) where
  -- A path in the server's directory or in one that mounts are allowed to take, at a target.
  pub record IsMounted (v : Text) : Type 0 where
    pub source : FilePath
    pub target : Text
    pub text : v ≡ volume source target
    pub confined : is_allowed allowed root source ≡ true

  -- What is known of the texts of the mounts.
  pub record HasMounts (vs : Items) (ws : List Text) : Type 0 where
    pub mounted : All IsMounted ws
    pub targets : (t : Text) → any (text_eq t) (targets_of vs) ≡ true → HasTarget t ws

  below-is_allowed : (rest : FilePath) → is_allowed allowed root (root ++ rest) ≡ true
  unfolding is_allowed
  below-is_allowed rest = ground (arith, is_under-append root rest)

  root-is_allowed : is_allowed allowed root root ≡ true
  unfolding is_allowed
  root-is_allowed = ground (arith, is_under_refl root)

  unless_mounted-IsMounted :
      (targets : List Text) (source : FilePath) (t : Text)
      → is_allowed allowed root source ≡ true
      → All IsMounted (unless_mounted targets source t)
  unfolding unless_mounted
  unless_mounted-IsMounted targets source t h = elim (Bool-cases (any (text_eq t) targets)) [
    | inl e ↦ rw e tt
    | inr e ↦ rw e (record { source = source; target = t; text = refl; confined = h }, tt)
  ]

  -- Each volume is confined and the three places that a server has of its own are mounted.
  pub record IsSandbox (vs : List Text) : Type 0 where
    pub mounted : All IsMounted vs
    pub home : HasTarget (lit "/home/container") vs
    pub tmp_directory : HasTarget (lit "/tmp") vs
    pub shm_directory : HasTarget (lit "/dev/shm") vs

  -- The list that `_volumes` makes, of what it adds and of what it mounts.
  module _ (vs : Items) (mounted : List Text) (known : HasMounts vs mounted) where
    unfoldable pub home_part : List Text
    home_part = unless_mounted (targets_of vs) root (lit "/home/container")

    unfoldable pub tmp_part : List Text
    tmp_part = unless_mounted (targets_of vs) (tmp root) (lit "/tmp")

    unfoldable pub shm_part : List Text
    shm_part = unless_mounted (targets_of vs) (shm root) (lit "/dev/shm")

    behind-HasTarget :
        (t : Text)
        → HasTarget t (mounted ++ (tmp_part ++ shm_part))
        → HasTarget t (home_part ++ (mounted ++ (tmp_part ++ shm_part)))
    behind-HasTarget t h = HasTarget-right t home_part _ h

    mounted-HasTarget :
        (t : Text)
        → any (text_eq t) (targets_of vs) ≡ true
        → HasTarget t (home_part ++ (mounted ++ (tmp_part ++ shm_part)))
    mounted-HasTarget t h = behind-HasTarget t (HasTarget-left t mounted _ (known.targets t h))

    pub assembled-IsSandbox : IsSandbox (home_part ++ (mounted ++ (tmp_part ++ shm_part)))
    unfolding home_part tmp_part shm_part
    assembled-IsSandbox = record {
      mounted =
          All-append IsMounted home_part _
            (unless_mounted-IsMounted (targets_of vs) root _ root-is_allowed)
            (All-append IsMounted mounted _ known.mounted (
              All-append IsMounted tmp_part shm_part
                (unless_mounted-IsMounted (targets_of vs) (tmp root) _ (below-is_allowed _))
                (unless_mounted-IsMounted (targets_of vs) (shm root) _ (below-is_allowed _))));
      home = elim (unless_mounted-HasTarget (targets_of vs) root (lit "/home/container")) [
        | inl h ↦ mounted-HasTarget _ h
        | inr h ↦ HasTarget-left _ home_part _ h
      ];
      tmp_directory = elim (unless_mounted-HasTarget (targets_of vs) (tmp root) (lit "/tmp")) [
        | inl h ↦ mounted-HasTarget _ h
        | inr h ↦
            behind-HasTarget _ (HasTarget-right _ mounted _ (HasTarget-left _ tmp_part shm_part h))
      ];
      shm_directory = elim (unless_mounted-HasTarget (targets_of vs) (shm root) (lit "/dev/shm")) [
        | inl h ↦ mounted-HasTarget _ h
        | inr h ↦
            behind-HasTarget _ (HasTarget-right _ mounted _ (HasTarget-right _ tmp_part shm_part h))
      ];
    }
