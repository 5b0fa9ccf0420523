-- ===== src/Processes/Prepared.antt =====
-- What `_start_locked` starts a server's process with.
use mathlib.Core.Path.{subst}
use pywings.Prelude.{
  ◌≡◌, ◌≢◌, refl, true, ◌⊎◌, ◌++◌, Option, none, some, [], ◌∷◌, List, Text, lit, arith, has_text,
  starts_with, Bool-cases, inl, inr,
}
use pywings.Prelude.Dict
use pywings.Prelude.Dict.{Dict, lookup-insert_self}
use pywings.Json.{Json, null, str, Fields}
use pywings.Result.{Result, IfOk, Result-cases, ok, err, >>=-eq-ok}
use pywings.Filesystem.{Disk, Outcome, make_dirs, and_give}
use pywings.Filesystem.Paths.{FilePath}
use pywings.Processes.Environment.{environment, apply_java_environment}
use pywings.Processes.Mounts.{volumes}
use pywings.Processes.Sandbox.{IsSandbox}
use pywings.Processes.Mounted.{volumes-IsSandbox}
use pywings.Processes.Launch.{
  Launch, directory_text, user_text, place_of, owner_of, runtime_identity, entrypoint,
  adapt_reviactyl_entrypoint, startup, launch_with, prepare_in, prepare,
}

-- The shell command, with or without the script before it.
abbrev shell : Text → List Text
shell invocation = lit "/bin/sh" ∷ lit "-c" ∷ (lit "exec " ++ invocation) ∷ []

adapt-command :
    (image : Text) (command : List Text) (point : Option Text)
    → ((adapt_reviactyl_entrypoint image command point).0 ≡ command)
      ⊎ ((adapt_reviactyl_entrypoint image command point).0
          ≡ lit "/__cacert_entrypoint.sh" ∷ command)
unfolding adapt_reviactyl_entrypoint
adapt-command image command none = inl refl
adapt-command image command (some []) =
    elim (Bool-cases (has_text (lit "reviactyl/images") image)) [
      | inl e ↦ inr (rw (e, adapt_reviactyl_entrypoint) refl)
      | inr e ↦ inl (rw (e, adapt_reviactyl_entrypoint) refl)
    ]
adapt-command image command (some (c ∷ s)) = inl refl

directory_text-absolute :
    (v : Json) {workdir : Text}
    → directory_text v ≡ ok workdir
    → starts_with workdir (lit "/") ≡ true
unfolding directory_text
directory_text-absolute (str s) h = ground arith
directory_text-absolute _ h = cc

-- The directory of the process and its user, as `_runtime_identity` gives them.
unfoldable pub HasIdentity : Text × Option Text → Type 0
HasIdentity (workdir, none) = starts_with workdir (lit "/") ≡ true
HasIdentity (workdir, some user) = (starts_with workdir (lit "/") ≡ true) × (user ≢ [])

user_text-HasIdentity :
    (v : Json) (workdir : Text) {user : Option Text}
    → starts_with workdir (lit "/") ≡ true
    → user_text v ≡ ok user
    → HasIdentity (workdir, user)
unfolding user_text IfOk HasIdentity
user_text-HasIdentity null workdir h k = subst (IfOk (λ u. HasIdentity (workdir, u))) k h
user_text-HasIdentity (str s) workdir h k = ground arith
user_text-HasIdentity _ workdir h k = cc

runtime_identity-HasIdentity :
    (conf : Fields) {who : Text × Option Text} → runtime_identity conf ≡ ok who → HasIdentity who
unfolding runtime_identity IfOk
runtime_identity-HasIdentity conf h =
    let (place, e, h1) = >>=-eq-ok (place_of conf) _ h in
    let (workdir, f, h2) = >>=-eq-ok (directory_text place) _ h1 in
    let (owner, g, h3) = >>=-eq-ok (owner_of conf) _ h2 in
    let (user, k, h4) = >>=-eq-ok (user_text owner) _ h3 in
    subst (IfOk HasIdentity) h4
      (user_text-HasIdentity owner workdir (directory_text-absolute place f) k)

module _ (allowed : List FilePath) (root : FilePath) where
  -- A process that sees the host's files only where it may, in a directory that is an absolute path,
  -- under a user with a name if one is set; it runs the invocation in a shell, which stands in its
  -- environment too.
  pub record IsReady (l : Launch) : Type 0 where
    pub sandbox : IsSandbox allowed root l.mounts
    pub identity : HasIdentity (l.workdir, l.user)
    pub invocation : Text
    pub variable : Dict.lookup (lit "STARTUP") l.variables ≡ some invocation
    pub command :
        (l.command ≡ shell invocation)
        ⊎ (l.command ≡ lit "/__cacert_entrypoint.sh" ∷ shell invocation)

  launch_with-IsReady :
      (image : Text) (conf : Fields) (env : Dict Text) (invocation : Text)
      (mounted : Result (List Text)) (d : Disk) {l : Launch}
      → ((vs : List Text) → mounted ≡ ok vs → IsSandbox allowed root vs)
      → (launch_with image conf env invocation (mounted, d)).0 ≡ ok l
      → IsReady l
  unfolding launch_with IfOk
  launch_with-IsReady image conf env invocation mounted d known h =
      let (vs, e, h1) = >>=-eq-ok mounted _ h in
      let (who, f, h2) = >>=-eq-ok (runtime_identity conf) _ h1 in
      let (point, g, h3) = >>=-eq-ok (entrypoint conf) _ h2 in
      subst (IfOk IsReady) h3 (record {
        sandbox = known vs e;
        identity = runtime_identity-HasIdentity conf f;
        invocation = invocation;
        variable = lookup-insert_self (lit "STARTUP") invocation env;
        command = adapt-command image (shell invocation) point;
      })

and_give-done :
    {A : Type 0} (o : Outcome) (f : Disk → Result A × Disk) {v : A}
    → (and_give o f).0 ≡ ok v
    → (d : Disk) × ((f d).0 ≡ ok v)
unfolding and_give
and_give-done (err e, d) f h = cc
and_give-done (ok u, d) f h = (d, h)

module _ (ip_address : Text → Option Text) (allowed : List FilePath) (resolve : Text → FilePath)
    (root : FilePath) (configure : Dict Text → Disk → Disk) (image : Text) (conf : Fields) where
  prepare_in-IsReady :
      (env : Dict Text) (d : Disk) {l : Launch}
      → (prepare_in ip_address allowed resolve root configure image conf env d).0 ≡ ok l
      → IsReady allowed root l
  unfolding prepare_in
  prepare_in-IsReady env d h = elim (Result-cases (startup conf env)) [
    | inl (x, e) ↦ ground arith
    | inr (invocation, e) ↦
        launch_with-IsReady allowed root image conf env invocation
          (volumes allowed resolve root conf (configure env d)).0
          (volumes allowed resolve root conf (configure env d)).1
          (λ vs k. volumes-IsSandbox allowed resolve root conf (configure env d) k) (ground arith)
  ]

  -- Where everything before the start of a server's process succeeds: each of its mounts is in the
  -- server's own directory or in one that the daemon allows, and something of that kind is mounted at
  -- /home/container, /tmp and /dev/shm; its working directory is an absolute path, and its user has a
  -- name if there is one; its command runs the invocation in a shell, alone or behind the script of the
  -- images that need it; and STARTUP of its environment is that invocation.
  pub prepare-IsReady :
      (d : Disk) {l : Launch}
      → (prepare ip_address allowed resolve root configure image conf d).0 ≡ ok l
      → IsReady allowed root l
  unfolding prepare
  prepare-IsReady d h = elim (Result-cases (environment ip_address conf)) [
    | inl (x, e) ↦ ground arith
    | inr (raw, e) ↦
        let (d', k) =
          and_give-done (make_dirs [] root d)
            (prepare_in ip_address allowed resolve root configure image conf
              (apply_java_environment image raw))
            (ground arith) in
        prepare_in-IsReady (apply_java_environment image raw) d' k
  ]
