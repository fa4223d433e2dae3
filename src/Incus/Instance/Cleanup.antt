-- ===== src/Incus/Instance/Cleanup.antt =====
-- A VM that could not be set up is deleted.
use derico_sandbox.Config.Project.{ProjectConfig, instance_name}
use derico_sandbox.Errors.{Error, Result, err, ok}
use derico_sandbox.Incus.Client.{call, incus_argv}
use derico_sandbox.Incus.Instance.{
  build_instance, delete_argv, discard_instance, init_argv, check_image, create_instance,
}
use derico_sandbox.Incus.Network.{admin_acl_query, delete_acl}
use derico_sandbox.Security.Acl.{AclPolicy}
use derico_sandbox.Incus.Guarded.{succeeded}
use derico_sandbox.Incus.Quiet.{is_incus, is_quiet, word, check_image-Only}
use derico_sandbox.Prelude.{
  Bool, Bool-cases, List, String, [], arith, false, if◌then◌else◌, inl, inr, nat_Eq, not, refl,
  string_Eq, true, ◌&&◌, ◌==◌, ◌∷◌, ◌≡◌, eq_iff, some,
}
use derico_sandbox.System.{
  Action, Event, Output, State, System, attempt, lift, exited, failed, lift, push, ran, recover,
  resume, return, run, throw, ◌>>=◌, ◌>>◌,
}
use derico_sandbox.System.Effects.{Only, effects}
use derico_sandbox.System.Outcomes.{Closed}

-- `incus … init` of the VM, which has succeeded
abbrev creates : String → Event → Bool
creates instance_ (ran args reply) =
    is_incus args && word 4 args == "init" && word 6 args == instance_ && succeeded reply
creates instance_ _ = false

abbrev deletes : String → Event → Bool
deletes instance_ (ran args reply) =
    is_incus args && word 4 args == "delete" && word 5 args == instance_
deletes instance_ _ = false

-- The VM has been created, and no deletion was asked for since.
abbrev is_left : String → List Event → Bool
is_left instance_ [] = false
is_left instance_ (e ∷ h) =
    if creates instance_ e then true else if deletes instance_ e then false else is_left instance_ h

-- No `init`.
abbrev inits_none : Event → Bool
inits_none (ran args reply) = not (is_incus args && word 4 args == "init")
inits_none _ = true

module _ (instance_ : String) where
  abbrev Gone : List Event → Type 0
  Gone h = is_left instance_ h ≡ false

  inits-creates : (e : Event) → inits_none e ≡ true → creates instance_ e ≡ false
  inits-creates (ran args reply) q = elim (Bool-cases (is_incus args)) [
    | inl a ↦ elim (Bool-cases (word 4 args == "init")) [
      | inl b ↦ let r = rw (a, b) at q in cc
      | inr b ↦ rw (a, b) refl
    ]
    | inr a ↦ rw a refl
  ]
  inits-creates e q = ground arith

  Gone-Closed : Closed inits_none Gone
  Gone-Closed h e q g = let c = inits-creates e q in ground (arith, c)

  quiet-inits : (e : Event) → is_quiet e ≡ true → inits_none e ≡ true
  quiet-inits (ran args reply) q = elim (Bool-cases (is_incus args)) [
    | inl a ↦ elim (Bool-cases (word 4 args == "init")) [
      | inl b ↦
          let r = rw (a, b) at q in
          ground (arith, eq_iff (word 4 args) "init", eq_iff (word 4 args) "start")
      | inr b ↦ rw (a, b) refl
    ]
    | inr a ↦ rw a refl
  ]
  quiet-inits e q = ground arith

-- An exception leaves the VM gone.
abbrev pub CleanedUp {ℓ} : {X : Type ℓ} → String → Result X × State → Type 0
CleanedUp instance_ (ok x, s) = Unit
CleanedUp instance_ (err e, s) = is_left instance_ s.history ≡ false

gone-CleanedUp {ℓ} :
    {X : Type ℓ} (instance_ : String) (r : Result X × State)
    → is_left instance_ r.1.history ≡ false
    → CleanedUp instance_ r
gone-CleanedUp instance_ (ok x, s) g = tt
gone-CleanedUp instance_ (err e, s) g = g

-- Every program that is run is installed.
abbrev pub Installed : System → Type 0
Installed system =
    (h : List Event) (args : List String) → (out : Output) × (system.respond h args ≡ some out)

module _ (system : System) (config : ProjectConfig) (instance_ : String)
    (installed : Installed system) where
  abbrev delete_command : List String
  delete_command = incus_argv system (delete_argv system instance_)

  rest-Only :
      (raised : Error)
      → Only inits_none (
          attempt (delete_acl system config) (λ cleanup. return tt) >> throw {X = AclPolicy} raised)
  unfolding delete_acl admin_acl_query
  rest-Only raised = search effects depth 12

  discard-Gone :
      (raised : Error) (s : State)
      → Gone instance_ (discard_instance system config instance_ raised s).1.history
  unfolding discard_instance run
  discard-Gone raised s =
      let (out, e) = installed s.history delete_command in
      rw e (
        (rest-Only raised).keeps (Gone instance_) (Gone-Closed instance_)
          (push (ran delete_command (exited out)) s) (ground (arith, eq_iff instance_ instance_)))

  abbrev set_up : Action AclPolicy
  set_up =
      attempt (build_instance system config instance_) (discard_instance system config instance_)

  set_up-CleanedUp :
      (r : Result AclPolicy × State)
      → CleanedUp instance_ (recover (discard_instance system config instance_) r)
  set_up-CleanedUp (ok p, t) = tt
  set_up-CleanedUp (err e, t) =
      gone-CleanedUp instance_ (discard_instance system config instance_ e t) (discard-Gone e t)

  created-CleanedUp :
      (s : State)
      → Gone instance_ s.history
      → CleanedUp instance_ ((call system (init_argv system config instance_) >> set_up) s)
  unfolding run
  created-CleanedUp s g =
      let init = incus_argv system (init_argv system config instance_) in
      let (out, e) = installed s.history init in
      elim (Bool-cases (failed out)) [
        | inl bad ↦ rw (e, bad) (ground (arith, bad))
        | inr fine ↦
            rw (e, fine)
              (set_up-CleanedUp
                (build_instance system config instance_ (push (ran init (exited out)) s)))
      ]

  checked-CleanedUp :
      instance_name system.platform config ≡ ok instance_
      → (r : Result (Unit {0}) × State) → Gone instance_ r.1.history
      → CleanedUp instance_ (
          resume
            (λ _. lift (instance_name system.platform config) >>= λ i.
              call system (init_argv system config i)
              >> attempt (build_instance system config i) (discard_instance system config i))
            r)
  checked-CleanedUp vm (err e, t) g = g
  checked-CleanedUp vm (ok x, t) g = rw vm (created-CleanedUp t g)

  -- Where every program is installed, an exception out of `create_instance` leaves no VM of its own behind:
  -- if the VM was created, its deletion was asked for after that.
  pub create_instance-CleanedUp :
      instance_name system.platform config ≡ ok instance_
      → (s : State) → is_left instance_ s.history ≡ false
      → CleanedUp instance_ (create_instance system config s)
  unfolding create_instance
  create_instance-CleanedUp vm s g = checked-CleanedUp vm (check_image system config s) (
      (check_image-Only system config).keeps (Gone instance_)
        (λ h e q. Gone-Closed instance_ h e (quiet-inits instance_ e q)) s g)
