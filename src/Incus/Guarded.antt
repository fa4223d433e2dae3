-- ===== src/Incus/Guarded.antt =====
-- No VM of a project starts before its ACL is written and attached: what of the history tells so, and
pub mod Steps
pub mod Create
-- that `build_instance` keeps to it.
use derico_sandbox.Incus.Client.{setting}
use derico_sandbox.Incus.Quiet.{is_quiet, word, is_admin_incus, is_incus, starts_none}
use derico_sandbox.Prelude.{
  Bool, Bool-cases, List, String, [], false, inl, inr, nat_Eq, not, string_Eq, true, ◌&&◌, ◌<>◌,
  ◌==◌, ◌||◌, ◌∷◌, ◌≡◌, ◌⊎◌, arith,
}
use derico_sandbox.Incus.Quiet
use derico_sandbox.System.{
  Action, Event, Output, Reply, State, System, exited, expired, failed, lift, ran, resume, return,
  run, ◌>>=◌, ◌>>◌,
}
use derico_sandbox.System.Effects.{Only}
use derico_sandbox.System.Outcomes.{Outcome, Closed}

-- The command has exited with 0.
abbrev pub succeeded : Reply → Bool
succeeded (exited out) = not (failed out)
succeeded expired = false

-- `sudo incus … query -X PUT` of the ACL, which has succeeded
abbrev pub puts_acl : String → Event → Bool
puts_acl path (ran args reply) =
    is_admin_incus args && word 5 args == "PUT" && word 8 args == path && succeeded reply
puts_acl path _ = false

-- `incus … config device override` or `set` of the NIC with the ACL, which has succeeded
abbrev pub attaches_acl : String → String → Event → Bool
attaches_acl instance_ acl (ran args reply) =
    is_incus args
    && word 4 args == "config"
    && word 5 args == "device"
    && ((word 6 args == "override" && word 9 args == setting ("security.acls", acl))
        || (word 6 args == "set" && word 9 args == "security.acls" && word 10 args == acl))
    && word 7 args == instance_
    && word 8 args == "eth0"
    && succeeded reply
attaches_acl instance_ acl _ = false

abbrev pub starts : String → Event → Bool
starts instance_ (ran args reply) =
    is_incus args && word 4 args == "start" && word 5 args == instance_
starts instance_ _ = false

-- Since a VM was last created, renamed or deleted, or an ACL deleted or detached, such an event has
-- happened.
abbrev pub Since : (Event → Bool) → List Event → Type 0
Since happens [] = ⊥
Since happens (e ∷ h) = (happens e ≡ true) ⊎ ((is_quiet e ≡ true) × Since happens h)

-- Each start of the VM stands behind a write of the ACL and behind its attachment.
abbrev pub IsGuarded : String → String → String → List Event → Type 0
IsGuarded instance_ acl path [] = Unit
IsGuarded instance_ acl path (e ∷ h) =
    (starts instance_ e ≡ true → Since (puts_acl path) h × Since (attaches_acl instance_ acl) h)
    × IsGuarded instance_ acl path h

pub none-starts :
    (instance_ : String) (e : Event) → starts_none e ≡ true → starts instance_ e ≡ true → ⊥
none-starts instance_ (ran args reply) q s = elim (Bool-cases (is_incus args)) [
  | inl a ↦ elim (Bool-cases (word 4 args == "start")) [
    | inl b ↦ let r = rw (a, b) at q in cc
    | inr b ↦ let r = rw (a, b) at s in cc
  ]
  | inr a ↦ let r = rw a at s in cc
]
none-starts instance_ e q s = cc

pub quiet-starts_none : (e : Event) → is_quiet e ≡ true → starts_none e ≡ true
quiet-starts_none (ran args reply) q = elim (Bool-cases (is_incus args && word 4 args == "start")) [
  | inl a ↦ let r = rw a at q in cc
  | inr a ↦ rw a
]
quiet-starts_none e q = ground arith

module _ (instance_ acl path : String) where
  pub starts_none-Closed : Closed starts_none (IsGuarded instance_ acl path)
  starts_none-Closed h e q g = (λ s. absurd (none-starts instance_ e q s), g)

  pub IsGuarded-Closed : Closed is_quiet (IsGuarded instance_ acl path)
  IsGuarded-Closed h e q g = starts_none-Closed h e (quiet-starts_none e q) g

  -- The ACL has been written.
  abbrev pub Written : List Event → Type 0
  Written h = IsGuarded instance_ acl path h × Since (puts_acl path) h

  pub Written-Closed : Closed is_quiet Written
  Written-Closed h e q w = (IsGuarded-Closed h e q w.0, inr (q, w.1))

  -- And attached.
  abbrev pub Ready : List Event → Type 0
  Ready h = Written h × Since (attaches_acl instance_ acl) h

  pub Ready-Closed : Closed is_quiet Ready
  Ready-Closed h e q r = (Written-Closed h e q r.0, inr (q, r.1))
