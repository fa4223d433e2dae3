-- ===== src/Image/Build/Guarded/Stages.antt =====
-- The loop of a build over its stages starts no worker before its ACL is attached to it.
use derico_sandbox.Image.Build.Attached.{
  IsAttached, IsAttached-Closed, Keeps, Only-Keeps, >>=-Keeps, attempt-Keeps, quiet-Closed,
  return-Keeps, start-Keeps,
}
use derico_sandbox.Image.Build.{make_chain}
use derico_sandbox.Image.Build.Startless.{
  commit_worker-Only, copy_parent-Only, fail_stage-Only, first_worker-Only, new_worker-Only,
  publish_last-Only, quiet-Startless, run_script-Only, wait_for_agent_within-Only,
}
use derico_sandbox.Image.Entries.{CacheEntry}
use derico_sandbox.Image.Keys.{StageKey}
use derico_sandbox.Image.Plan.{PlanStep}
use derico_sandbox.Image.Stages.{Stage}
use derico_sandbox.Incus.Guest.{in_guest, pin_allowlist, wait_for_agent_within}
use derico_sandbox.Config.Project.{acl_name, instance_name}
use derico_sandbox.Image.BuildPlan.{BuildPlan, reused_entry, to_build}
use derico_sandbox.Image.Cache.{Workshop}
use derico_sandbox.Image.Workers.{
  boot_worker, build_project_config, config_of, build_stage, build_stages, copy_parent,
  first_worker, make_stage, new_worker, parent_name, replaced_entry,
}
use derico_sandbox.Security.Acl.{AclPolicy}
use derico_sandbox.Errors.{ok}
use derico_sandbox.Incus.Client.{call, command}
use derico_sandbox.Incus.Guarded.{Since, attaches_acl}
use derico_sandbox.Incus.Guarded.Steps.{attach_acl-Outcome}
use derico_sandbox.Incus.Network.{attach_acl, host_acl_name}
use derico_sandbox.Incus.Quiet.{starts_none}
use derico_sandbox.Prelude.{
  Bool, List, Option, String, [], ◌∷◌, ◌≡◌, false, ℕ, none, string_Eq, length, some,
}
use derico_sandbox.System.{Action, System, ◌>>=◌, ◌>>◌, say}
use derico_sandbox.System.Effects.{Only, effects}
use derico_sandbox.System.Outcomes.{Anything, Outcome-invariant, >>=-Outcome, Only-last}

module _ (acl : String) (system : System) (workshop : Workshop)
    (named : host_acl_name system (build_project_config system workshop "" []) ≡ ok acl) where
  same_name : (p : BuildPlan) → host_acl_name system (config_of system workshop p) ≡ ok acl
  unfolding host_acl_name acl_name instance_name build_project_config
  same_name p = named

  -- What `boot_worker` does behind the start.
  abbrev come_up : AclPolicy → String → Action (Unit {0})
  come_up policy worker =
      wait_for_agent_within system 600000 worker
      >> (command system (in_guest worker ("cloud-init" ∷ "status" ∷ "--wait" ∷ [])) false none
          >>= λ status. pin_allowlist system policy worker)

  agent-Startless :
      (worker : String) → Only starts_none (wait_for_agent_within system 600000 worker)
  agent-Startless worker =
      quiet-Startless (wait_for_agent_within system 600000 worker)
        (wait_for_agent_within-Only system workshop 600000 worker)

  come_up-Only : (policy : AclPolicy) (worker : String) → Only starts_none (come_up policy worker)
  unfolding pin_allowlist
  come_up-Only policy worker = search (effects, agent-Startless)

  boot_worker-Keeps :
      (p : BuildPlan) (policy : AclPolicy) (worker : String)
      → Keeps acl (boot_worker system workshop p policy worker)
  unfolding boot_worker
  boot_worker-Keeps p policy worker = record {
    keeps = λ s g.
        Outcome-invariant (IsAttached acl) Anything (boot_worker system workshop p policy worker s)
          (>>=-Outcome (IsAttached acl) (λ _ h. Since (attaches_acl worker acl) h) Anything
            (attach_acl system (config_of system workshop p) worker s) _
            (attach_acl-Outcome system (config_of system workshop p) worker acl (IsAttached acl)
              (quiet-Closed acl) (same_name p) s g)
            λ _ t g a.
              >>=-Outcome (IsAttached acl) Anything Anything (call system ("start" ∷ worker ∷ []) t)
                (λ _. come_up policy worker) (start-Keeps acl system worker t g a)
                λ _ u g _.
                  Only-last starts_none (IsAttached acl) (come_up policy worker) u
                    (come_up-Only policy worker) (IsAttached-Closed acl) g);
  }

  make_stage-Keeps :
      (p : BuildPlan) (policy : AclPolicy) (stage : Stage) (parent : Option String)
      (worker : String)
      → Keeps acl (make_stage system workshop p policy stage parent worker)
  unfolding make_stage
  make_stage-Keeps p policy stage parent worker =
      >>=-Keeps (copy_parent system workshop parent worker) _
        (Only-Keeps _ (copy_parent-Only system workshop parent worker))
        λ _.
          >>=-Keeps (boot_worker system workshop p policy worker) _
            (boot_worker-Keeps p policy worker)
            λ _. Only-Keeps _ (run_script-Only system workshop p stage worker)

  build_stage-Keeps :
      (p : BuildPlan) (policy : AclPolicy) (key : StageKey) (parent : Option CacheEntry)
      → Keeps acl (build_stage system workshop p policy key parent)
  unfolding build_stage
  build_stage-Keeps p policy key parent =
      >>=-Keeps (new_worker system workshop key) _
        (Only-Keeps _ (new_worker-Only system workshop key))
        λ worker. >>=-Keeps (say _) _ (Only-Keeps (say _) (search effects)) λ _.
          >>=-Keeps (first_worker system workshop p (parent_name parent) worker) _
            (Only-Keeps _ (first_worker-Only system workshop p (parent_name parent) worker))
            λ _.
              >>=-Keeps _ _
                (attempt-Keeps
                  (make_stage system workshop p policy key.stage (parent_name parent) worker) _
                  (make_stage-Keeps p policy key.stage (parent_name parent) worker)
                  (λ e. Only-Keeps _ (
                    fail_stage-Only system workshop key.stage worker workshop.settings.keep_failed
                      e)))
                λ _. Only-Keeps _ (
                  commit_worker-Only system workshop worker key p.pinned.fingerprint
                    p.inputs.build_allow (replaced_entry system workshop p key))

  build_stages-Keeps :
      (p : BuildPlan) (policy : AclPolicy) (steps : List PlanStep) (parent : Option CacheEntry)
      → Keeps acl (build_stages system workshop p policy steps parent)
  unfolding build_stages
  build_stages-Keeps p policy [] parent = return-Keeps _
  build_stages-Keeps p policy (step ∷ steps) parent =
      >>=-Keeps (build_stage system workshop p policy step.key parent) _
        (build_stage-Keeps p policy step.key parent)
        λ entry. build_stages-Keeps p policy steps (some entry)

  pub make_chain-Keeps :
      (p : BuildPlan) (publish : Bool) (started_at : ℕ) (policy : AclPolicy)
      → Keeps acl (make_chain system workshop p publish started_at policy)
  unfolding make_chain
  make_chain-Keeps p publish started_at policy =
      >>=-Keeps (build_stages system workshop p policy (to_build p) (reused_entry p)) _
        (build_stages-Keeps p policy (to_build p) (reused_entry p))
        λ last.
          Only-Keeps _
            (publish_last-Only system workshop p publish (length (to_build p)) started_at last)
