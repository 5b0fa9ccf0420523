-- ===== src/Processes/Mounted.antt =====
-- What `_volumes` lets a server's process see.
use mathlib.Core.Path.{subst}
use pywings.Prelude.{◌≡◌, inl, inr, List, [], ◌∷◌, Text, text_eq, arith, Bool-cases}
use pywings.Json.{Json, obj, Items, nil, cons, Fields, arr}
use pywings.Json.Printed.{text_of}
use pywings.Result.{Result, IfOk, Result-cases, ok, err, >>=-eq-ok}
use pywings.Filesystem.{Disk, Outcome, make_dirs, and_give}
use pywings.Filesystem.Paths.{FilePath}
use pywings.Processes.Sandbox.{
  HasTarget-head, HasTarget-right, IsMounted, HasMounts, IsSandbox, home_part, tmp_part, shm_part,
  assembled-IsSandbox,
}
use pywings.Processes.Mounts.{
  mounts_of, target_of, source_of, targets_of, volume, mount_volume, mount_volumes, tmp, shm,
  planned, make_private, volumes_from, volumes,
}

module _ (allowed : List FilePath) (resolve : Text → FilePath) (root : FilePath) where
  mount_volume-IsMounted :
      (m : Json) {v : Text} → mount_volume allowed resolve root m ≡ ok v → IsMounted allowed root v
  unfolding mount_volume
  mount_volume-IsMounted (obj fs) h = record {
    source = resolve (text_of (source_of fs));
    target = text_of (target_of fs);
    text = ground arith;
    confined = ground arith;
  }
  mount_volume-IsMounted _ h = cc

  mount_volume-text :
      (fs : Fields) {v : Text}
      → mount_volume allowed resolve root (obj fs) ≡ ok v
      → v ≡ volume (resolve (text_of (source_of fs))) (text_of (target_of fs))
  unfolding mount_volume
  mount_volume-text fs h = ground arith

  cons-HasMounts :
      (v : Json) (vs : Items) (w : Text) (ws : List Text)
      → mount_volume allowed resolve root v ≡ ok w
      → HasMounts allowed root vs ws
      → HasMounts allowed root (cons v vs) (w ∷ ws)
  unfolding targets_of mount_volume
  cons-HasMounts (obj fs) vs w ws h r = record {
    mounted = (mount_volume-IsMounted (obj fs) h, r.mounted);
    targets = λ t k. elim (Bool-cases (text_eq t (text_of (target_of fs)))) [
      | inl e ↦
          HasTarget-head (resolve (text_of (source_of fs))) t (text_of (target_of fs)) w ws
            (mount_volume-text fs h) e
      | inr e ↦ HasTarget-right t (w ∷ []) ws (r.targets t (ground arith))
    ];
  }
  cons-HasMounts _ vs w ws h r = cc

  mount_volumes-HasMounts :
      (vs : Items) {ws : List Text}
      → mount_volumes allowed resolve root vs ≡ ok ws
      → HasMounts allowed root vs ws
  unfolding mount_volumes IfOk targets_of
  mount_volumes-HasMounts nil h =
      subst (IfOk (HasMounts allowed root nil)) h (record { mounted = tt; targets = λ t k. cc })
  mount_volumes-HasMounts (cons v vs) h =
      let (w, e, h1) = >>=-eq-ok (mount_volume allowed resolve root v) _ h in
      let (ws, f, h2) = >>=-eq-ok (mount_volumes allowed resolve root vs) _ h1 in
      subst (IfOk (HasMounts allowed root (cons v vs))) h2
        (cons-HasMounts v vs w ws e (mount_volumes-HasMounts vs f))

  planned-IsSandbox :
      (vs : Items) {ws : List Text}
      → planned allowed resolve root vs ≡ ok ws
      → IsSandbox allowed root ws
  unfolding planned IfOk home_part tmp_part shm_part
  planned-IsSandbox vs h =
      let (mounted, e, h1) = >>=-eq-ok (mount_volumes allowed resolve root vs) _ h in
      subst (IfOk (IsSandbox allowed root)) h1
        (assembled-IsSandbox allowed root vs mounted (mount_volumes-HasMounts vs e))

  and_give-ok :
      (o : Outcome) (f : Disk → Result (List Text) × Disk) {ws : List Text}
      → (and_give o f).0 ≡ ok ws
      → (d : Disk) × ((f d).0 ≡ ok ws)
  unfolding and_give
  and_give-ok (err e, d) f h = cc
  and_give-ok (ok u, d) f h = (d, h)

  -- What comes out of the directories that it makes is what went in.
  make_private-same :
      (vs : List Text) (d : Disk) {ws : List Text}
      → (make_private allowed resolve root vs d).0 ≡ ok ws
      → vs ≡ ws
  unfolding make_private
  make_private-same vs d h =
      let (d', h1) = and_give-ok (make_dirs [] (tmp root) d) _ h in
      let (d'', h2) = and_give-ok (make_dirs [] (shm root) d') _ h1 in cc

  volumes_from-IsSandbox :
      (m : Result Json) (d : Disk) {ws : List Text}
      → (volumes_from allowed resolve root m d).0 ≡ ok ws
      → IsSandbox allowed root ws
  unfolding volumes_from
  volumes_from-IsSandbox (err e) d h = cc
  volumes_from-IsSandbox (ok (arr vs)) d h = elim (Result-cases (planned allowed resolve root vs)) [
    | inl (x, e) ↦ ground arith
    | inr (ws, e) ↦
        subst (IsSandbox allowed root) (make_private-same ws d (ground arith))
          (planned-IsSandbox vs e)
  ]
  volumes_from-IsSandbox (ok _) d h = cc

  -- Where `_volumes` gives the volumes of a server, each is a path of the host at a target, and the
  -- path is in the server's own directory or in one of those that the daemon allows for mounts; and
  -- something of that kind is mounted at /home/container, at /tmp and at /dev/shm.
  pub volumes-IsSandbox :
      (conf : Fields) (d : Disk) {ws : List Text}
      → (volumes allowed resolve root conf d).0 ≡ ok ws
      → IsSandbox allowed root ws
  unfolding volumes
  volumes-IsSandbox conf d h = volumes_from-IsSandbox (mounts_of conf) d h
