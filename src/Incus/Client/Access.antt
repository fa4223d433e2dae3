-- ===== src/Incus/Client/Access.antt =====
-- incus.py: what Incus has answered when `verify_host_access` returns.
use derico_sandbox.Errors.{
  Error, Result, err, ok, incus_error, is_admin, not_confined, not_restricted, bad_projects,
  bad_network_feature,
}
use derico_sandbox.Errors
use derico_sandbox.Incus.Client
use derico_sandbox.Incus.Client.{
  control_timeout, decoded, incus_argv, is_admin_user, is_confined, is_member, project,
  verify_acl_enforcement, verify_host_access,
}
use derico_sandbox.Incus.Quiet.{is_quiet}
use derico_sandbox.Incus.Quiet.Existing.{server_version-Only}
use derico_sandbox.Incus.Values.{elements, names_of}
use derico_sandbox.Json.{Value}
use derico_sandbox.Prelude.{
  ap, Bool-cases, arith, inl, inr, All, Bool, List, Option, String, [], all, contains, false, none,
  not, refl, some, true, ℕ, ◌&&◌, ◌||◌, nat_Eq, ◌∷◌, ◌≡◌, ◌≢◌, ◌==◌, string_Eq,
}
use derico_sandbox.Prelude.Text.{strip}
use derico_sandbox.System.{
  Action, Event, Output, State, System, exited, lift, ran, resume, return, run, throw_if, ◌>>=◌,
  ◌>>◌,
}
use derico_sandbox.System.Effects.{Only, effects}
use derico_sandbox.System.Leaves.{Returns}
use derico_sandbox.System.Outcomes.{Closed, Outcome, run-Outcome}

-- The user is no member of the group `incus-admin`, by the ids of the process or by the list of members.
abbrev pub IsOutside : Option String → List ℕ → Option (ℕ × List String) → Type 0
IsOutside user groups none = Unit
IsOutside none groups (some (gid, members)) = contains groups gid ≡ false
IsOutside (some u) groups (some (gid, members)) =
    (contains groups gid ≡ false) × (contains members u ≡ false)

IsOutside-cases :
    (user : Option String) (groups : List ℕ) (group : Option (ℕ × List String))
    → (elim group [
      | none ↦ false
      | some (gid, members) ↦ contains groups gid || is_member user members
    ])
      ≡ false
    → IsOutside user groups group
IsOutside-cases user groups none h = tt
IsOutside-cases none groups (some (gid, members)) h = ground arith
IsOutside-cases (some u) groups (some (gid, members)) h = ground arith

no_admin-IsOutside :
    (system : System)
    → is_admin_user system ≡ false
    → IsOutside system.user system.groups system.admin_group
unfolding is_admin_user
no_admin-IsOutside system h = IsOutside-cases system.user system.groups system.admin_group h

-- The history has this command with an output of the kind.
pub data Told (args : List String) (P : Output → Type 0) : List Event → Type 0 where
  here : (out : Output) (h : List Event) → P out → Told args P (ran args (exited out) ∷ h)
  there : (e : Event) (h : List Event) → Told args P h → Told args P (e ∷ h)

module _ {X Y : Type 0} (R : Y → State → Type 0) where
  Outcome-Returns :
      (Q : X → List Event → Type 0) (r : Result X × State) (next : X → Action Y)
      → Outcome (λ _. Unit {0}) Q r
      → ((x : X) (t : State) → Q x t.history → Returns R (next x t))
      → Returns R (resume next r)
  Outcome-Returns Q (ok x, t) next o n = n x t o.1
  Outcome-Returns Q (err e, t) next o n = tt

  lift-Returns :
      (r : Result X) (s : State) (next : X → Action Y)
      → ((x : X) → r ≡ ok x → Returns R (next x s))
      → Returns R (resume next (lift r s))
  lift-Returns (ok x) s next n = n x refl
  lift-Returns (err e) s next n = tt

module _ {Y : Type 0} (R : Y → State → Type 0) where
  throw_if-Returns :
      (b : Bool) (e : Error) (s : State) (next : Unit {0} → Action Y)
      → (b ≡ false → Returns R (next tt s))
      → Returns R (resume next (throw_if b e s))
  throw_if-Returns true e s next n = tt
  throw_if-Returns false e s next n = n refl

  module _ (system : System) where
    decoded-Returns :
        (o : Option Value) (e : Error) (s : State) (next : Value → Action Y)
        → ((v : Value) → o ≡ some v → Returns R (next v s))
        → Returns R (resume next (decoded system e o s))
    decoded-Returns none e s next n = tt
    decoded-Returns (some v) e s next n = n v refl

    run-Returns :
        (args : List String) (timeout : Option ℕ) (s : State) (next : Output → Action Y)
        → ((out : Output) (t : State)
            → t.history ≡ ran args (exited out) ∷ s.history
            → Returns R (next out t))
        → Returns R (resume next (run system args true timeout s))
    run-Returns args timeout s next n =
        Outcome-Returns R (λ out h. h ≡ ran args (exited out) ∷ s.history)
          (run system args true timeout s) next
          (run-Outcome system args true timeout s (λ _. Unit {0})
            (λ out h. h ≡ ran args (exited out) ∷ s.history) tt (λ reply. tt) (λ out passed. refl))
          n

  keep-Returns {κ} :
      {X : Type κ} (J : List Event → Type 0) (first : Action X) (s : State) (next : X → Action Y)
      → Only is_quiet first
      → Closed is_quiet J
      → J s.history
      → ((x : X) (t : State) → J t.history → Returns R (next x t))
      → Returns R (resume next (first s))
  keep-Returns {X} J first s next only closed j n = settle (first s) (only.keeps J closed s j)
    where
      settle : (r : Result X × State) → J r.1.history → Returns R (resume next r)
      settle (ok x, t) k = n x t k
      settle (err e, t) k = tt

-- The project is the only one that is listed.
abbrev IsSole : String → List (Option String) → Type 0
IsSole expected names = (names ≢ []) × All (λ n. n ≡ some expected) names

all-sole :
    (expected : String) (names : List (Option String))
    → all (Client.named expected) names ≡ true
    → All (λ n. n ≡ some expected) names
all-sole expected [] a = tt
all-sole expected (none ∷ ns) a = cc
all-sole expected (some n ∷ ns) a = elim (Bool-cases (n == expected)) [
  | inl same ↦
      let rest = rw same at a in
      (ap some ((string_Eq.beq_iff n expected).0 same), all-sole expected ns rest)
  | inr other ↦ let refused = rw other at a in cc
]

confined-IsSole :
    (expected : String) (names : List (Option String))
    → not (is_confined expected false names) ≡ false
    → IsSole expected names
unfolding is_confined
confined-IsSole expected [] c = cc
confined-IsSole expected (n ∷ ns) c = (λ p. cc, all-sole expected (n ∷ ns) (grind arith))

module _ (system : System) where
  -- The answer to `project list`: a JSON array with the user's project and no other.
  abbrev ListsSole : Output → Type 0
  ListsSole out =
      (v : Value) × (names : List (Option String)) × (system.loads out.stdout ≡ some v)
      × (Errors.◌>>=◌ (elements v) names_of ≡ ok names)
      × IsSole (project system) names

  -- `incus project get <the user's project> <key>`
  abbrev get_key : String → List String
  get_key key = incus_argv system ("project" ∷ "get" ∷ project system ∷ key ∷ [])

  abbrev list_argv : List String
  list_argv = incus_argv system ("project" ∷ "list" ∷ "--format=json" ∷ [])

  abbrev IsRestricted : Output → Type 0
  IsRestricted out = strip out.stdout ≡ "true"

  abbrev HasNoNetworks : Output → Type 0
  HasNoNetworks out = contains ("" ∷ "false" ∷ []) (strip out.stdout) ≡ true

  abbrev Answers : List Event → Type 0
  Answers h =
      Told list_argv ListsSole h
      × Told (get_key "restricted") IsRestricted h
      × Told (get_key "features.networks") HasNoNetworks h

  abbrev pub HasAccess : String → State → Type 0
  HasAccess p t =
      (p ≡ project system)
      × (IsOutside system.user system.groups system.admin_group)
      × Answers t.history

  Answers-Closed : Closed is_quiet Answers
  Answers-Closed h e q (a, b, c) = (there e h a, there e h b, there e h c)

  -- What `verify_host_access` does, from the end.
  abbrev enforce : Action String
  enforce = verify_acl_enforcement system >>= λ version. return (project system)

  abbrev check_networks : Output → Action String
  check_networks feature =
      throw_if (not (contains ("" ∷ "false" ∷ []) (strip feature.stdout)))
        (incus_error bad_network_feature)
      >> enforce

  abbrev ask_networks : Action String
  ask_networks = run system (get_key "features.networks") true control_timeout >>= check_networks

  abbrev check_restricted : Output → Action String
  check_restricted restricted =
      throw_if (not (strip restricted.stdout == "true")) (incus_error not_restricted)
      >> ask_networks

  abbrev ask_restricted : Action String
  ask_restricted = run system (get_key "restricted") true control_timeout >>= check_restricted

  abbrev check_names : List (Option String) → Action String
  check_names names =
      throw_if (not (is_confined (project system) system.allow_admin names))
        (incus_error not_confined)
      >> ask_restricted

  abbrev read_names : Value → Action String
  read_names projects = lift (Errors.◌>>=◌ (elements projects) names_of) >>= check_names

  abbrev check_list : Output → Action String
  check_list r = decoded system (incus_error bad_projects) (system.loads r.stdout) >>= read_names

  enforce-HasAccess :
      (s : State)
      → IsOutside system.user system.groups system.admin_group
      → Answers s.history
      → Returns HasAccess (enforce s)
  unfolding verify_acl_enforcement
  enforce-HasAccess s user a =
      keep-Returns HasAccess Answers (verify_acl_enforcement system) s
        (λ _. return (project system)) (search (effects, server_version-Only) depth 8)
        Answers-Closed a (λ _ t a. (refl, user, a))

  ask_networks-HasAccess :
      (s : State)
      → IsOutside system.user system.groups system.admin_group
      → Told list_argv ListsSole s.history
      → Told (get_key "restricted") IsRestricted s.history
      → Returns HasAccess (ask_networks s)
  ask_networks-HasAccess s user sole restricted =
      run-Returns HasAccess system (get_key "features.networks") control_timeout s check_networks
        λ out t h.
          throw_if-Returns HasAccess (not (contains ("" ∷ "false" ∷ []) (strip out.stdout)))
            (incus_error bad_network_feature) t (λ _. enforce)
            λ off. enforce-HasAccess t user (
              rw h (
                there _ s.history sole,
                there _ s.history restricted,
                here out s.history (ground arith),
              ))

  ask_restricted-HasAccess :
      (s : State)
      → IsOutside system.user system.groups system.admin_group
      → Told list_argv ListsSole s.history
      → Returns HasAccess (ask_restricted s)
  ask_restricted-HasAccess s user sole =
      run-Returns HasAccess system (get_key "restricted") control_timeout s check_restricted
        λ out t h.
          throw_if-Returns HasAccess (not (strip out.stdout == "true")) (incus_error not_restricted)
            t (λ _. ask_networks)
            λ is_true. ask_networks-HasAccess t user (rw h (there _ s.history sole)) (
              rw h
                (here out s.history (grind (arith, string_Eq.beq_iff (strip out.stdout) "true"))))

  -- Unless SANDBOXSH_ALLOW_ADMIN is 1, `verify_host_access` returns only for a user who is no
  -- incus-admin, with the user's own project, and behind answers that list this project and no other,
  -- that it is restricted, and that its networks are not its own.
  pub verify_host_access-HasAccess :
      system.allow_admin ≡ false → (s : State) → Returns HasAccess (verify_host_access system s)
  unfolding verify_host_access
  verify_host_access-HasAccess strict s =
      throw_if-Returns HasAccess (is_admin_user system && not system.allow_admin)
        (incus_error is_admin) s (λ _. run system list_argv true control_timeout >>= check_list)
        λ user. run-Returns HasAccess system list_argv control_timeout s check_list λ out t h.
          decoded-Returns HasAccess system (system.loads out.stdout) (incus_error bad_projects) t
            read_names
            λ v loaded.
              lift-Returns HasAccess (Errors.◌>>=◌ (elements v) names_of) t check_names
                λ names named.
                  throw_if-Returns HasAccess
                    (not (is_confined (project system) system.allow_admin names))
                    (incus_error not_confined) t (λ _. ask_restricted)
                    λ sole.
                      let mine = rw strict at user in
                      let only = rw strict at sole in
                      ask_restricted-HasAccess t (no_admin-IsOutside system (grind arith)) (
                        rw h (
                          here out s.history
                            (v, names, loaded, named, confined-IsSole (project system) names only)))
