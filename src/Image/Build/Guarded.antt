-- ===== src/Image/Build/Guarded.antt =====
-- A build starts no worker before its ACL is attached to it.
pub mod Stages
use derico_sandbox.Image.Build.Guarded.Stages.{make_chain-Keeps}
use derico_sandbox.Image.Report.{plan_lines}
use derico_sandbox.Image.Build.Attached.{
  IsAttached, IsAttached-Closed, Keeps, Only-Keeps, >>=-Keeps, attempt-Keeps, if-Keeps,
  quiet-Closed, return-Keeps, start-Keeps, throw-Keeps, when-Keeps,
}
use derico_sandbox.Image.Builder.{save_manifest, Request, held}
use derico_sandbox.Image.Manifest.{Manifest}
use derico_sandbox.Image.Builder.{plan}
use derico_sandbox.Image.Build.{
  make_chain, annotate_failure, carry_out, guarded_chain, is_stale, keeps_worker, publish_last,
  publish_reused, release_acl, remove_leftover_workers, run_build, run_chain, run_plan,
  settle_build, settle_unwritten, write_build_acl, build,
}
use derico_sandbox.Image.Build.Startless.{
  commit_worker-Only, copy_parent-Only, fail_stage-Only, first_worker-Only, new_worker-Only,
  publish_last-Only, quiet-Startless, run_script-Only, wait_for_agent_within-Only,
  annotate_failure-Only, apply_acl-Only, release_acl-Only, remove_leftover_workers-Only,
  save_manifest-Only, query-Startless,
}
use derico_sandbox.Image.Entries.{CacheEntry}
use derico_sandbox.Image.Keys.{StageKey}
use derico_sandbox.Image.Plan.{PlanStep}
use derico_sandbox.Image.Stages.{Stage}
use derico_sandbox.Incus.Guest.{in_guest, pin_allowlist, wait_for_agent_within}
use derico_sandbox.Config.Project.{acl_name, instance_name}
use derico_sandbox.Image.BuildPlan.{BuildPlan, reused_entry, to_build, age_verdict, is_noop}
use derico_sandbox.Image.Cache.{Workshop}
use derico_sandbox.Image.Workers.{
  boot_worker, build_project_config, config_of, build_stage, build_stages, copy_parent,
  first_worker, make_stage, new_worker, parent_name, replaced_entry,
}
use derico_sandbox.Security.Acl.{AclPolicy}
use derico_sandbox.Image.Build.DryRun.{lines-Only, plan-Only}
use derico_sandbox.System.{now, throw, say_all}
use derico_sandbox.Errors.{Result, err, ok}
use derico_sandbox.Incus.Client.{call, command}
use derico_sandbox.Incus.Guarded.{Since, attaches_acl}
use derico_sandbox.Incus.Guarded.Steps.{attach_acl-Outcome}
use derico_sandbox.Incus.Network.{attach_acl, host_acl_name, apply_acl}
use derico_sandbox.Incus.Quiet.{starts_none}
use derico_sandbox.Prelude.{
  Bool, List, Option, String, [], ◌∷◌, ◌≡◌, false, ℕ, if◌then◌else◌, none, string_Eq, length, some,
  is_empty, not, ◌&&◌, Bool-cases, inl, inr, ◌<>◌, ◌||◌,
}
use derico_sandbox.System.{
  Action, State, System, attempt, when, ◌>>=◌, ◌>>◌, return, say, lift, throw_if,
}
use derico_sandbox.System.Effects.{Only, effects}
use derico_sandbox.System.Outcomes.{Anything, Outcome-invariant, >>=-Outcome, Only-last}

module _ (acl : String) (system : System) (workshop : Workshop)
    (named : host_acl_name system (build_project_config system workshop "" []) ≡ ok acl) where
  release-Keeps : (p : BuildPlan) → Keeps acl (release_acl system workshop p)
  release-Keeps p = Only-Keeps (release_acl system workshop p) (release_acl-Only system workshop p)

  annotate-Keeps : Keeps acl (annotate_failure system workshop)
  annotate-Keeps =
      Only-Keeps (annotate_failure system workshop) (annotate_failure-Only system workshop)

  settle_build-IsAttached {ℓ} :
      {X : Type ℓ} (p : BuildPlan) (r : Result X × State)
      → IsAttached acl r.1.history
      → IsAttached acl (settle_build system workshop p r).1.history
  unfolding settle_build
  settle_build-IsAttached {X} p (ok x, s) g =
      (>>=-Keeps (release_acl system workshop p) _ (release-Keeps p) (λ _. return-Keeps _)).keeps s
        g
  settle_build-IsAttached {X} p (err raised, s) g =
      (>>=-Keeps _ (λ _. throw raised)
          (>>=-Keeps (annotate_failure system workshop) _ annotate-Keeps λ _.
            if-Keeps (keeps_worker raised) (return tt)
              (attempt (release_acl system workshop p) (λ cleanup. return tt)) (return-Keeps tt)
              (attempt-Keeps (release_acl system workshop p) _ (release-Keeps p)
                (λ cleanup. return-Keeps tt)))
          (λ _. throw-Keeps X raised)).keeps
        s g

  settle_unwritten-IsAttached {ℓ} :
      {X : Type ℓ} (r : Result X × State)
      → IsAttached acl r.1.history
      → IsAttached acl (settle_unwritten system workshop r).1.history
  unfolding settle_unwritten
  settle_unwritten-IsAttached {X} (ok x, s) g = g
  settle_unwritten-IsAttached {X} (err raised, s) g =
      (>>=-Keeps (annotate_failure system workshop) _ annotate-Keeps
          (λ _. throw-Keeps X raised)).keeps
        s g

  write_build_acl-Keeps : (p : BuildPlan) → Keeps acl (write_build_acl system workshop p)
  unfolding write_build_acl
  write_build_acl-Keeps p = record {
    keeps = λ s g. settle_unwritten-IsAttached (apply_acl system (config_of system workshop p) s) (
        (Only-Keeps (apply_acl system (config_of system workshop p)) (
            quiet-Startless _ (apply_acl-Only system workshop (config_of system workshop p)))).keeps
          s g);
  }

  guarded_chain-Keeps :
      (p : BuildPlan) (publish : Bool) (started_at : ℕ) (policy : AclPolicy)
      → Keeps acl (guarded_chain system workshop p publish started_at policy)
  unfolding guarded_chain
  guarded_chain-Keeps p publish started_at policy = record {
    keeps = λ s g.
        settle_build-IsAttached p (make_chain system workshop p publish started_at policy s)
          ((make_chain-Keeps acl system workshop named p publish started_at policy).keeps s g);
  }

  publish_reused-Keeps :
      (p : BuildPlan) (publish : Bool) (started_at : ℕ)
      → Keeps acl (publish_reused system workshop p publish started_at)
  unfolding publish_reused
  publish_reused-Keeps p publish started_at = record {
    keeps = λ s g.
        settle_unwritten-IsAttached
          (publish_last system workshop p publish 0 started_at (reused_entry p) s)
          ((Only-Keeps (publish_last system workshop p publish 0 started_at (reused_entry p))
              (publish_last-Only system workshop p publish 0 started_at (reused_entry p))).keeps
            s g);
  }

  run_chain-Keeps :
      (p : BuildPlan) (publish : Bool) (started_at : ℕ)
      → Keeps acl (run_chain system workshop p publish started_at)
  unfolding run_chain
  run_chain-Keeps p publish started_at =
      if-Keeps (is_empty (to_build p)) _ _
        (>>=-Keeps (publish_reused system workshop p publish started_at) _
          (publish_reused-Keeps p publish started_at) (λ _. return-Keeps _))
        (>>=-Keeps (write_build_acl system workshop p) _ (write_build_acl-Keeps p) λ policy.
          >>=-Keeps (guarded_chain system workshop p publish started_at policy) _
            (guarded_chain-Keeps p publish started_at policy) (λ _. return-Keeps _))

  now-Keeps : Keeps acl (now system)
  now-Keeps = Only-Keeps (now system) (search effects)

  run_plan-Keeps :
      (p : BuildPlan) (publish : Bool) (started_at : ℕ)
      → Keeps acl (run_plan system workshop p publish started_at)
  unfolding run_plan
  run_plan-Keeps p publish started_at =
      >>=-Keeps (remove_leftover_workers system workshop) _
        (Only-Keeps _ (remove_leftover_workers-Only system workshop))
        λ _.
          >>=-Keeps (run_chain system workshop p publish started_at) _
            (run_chain-Keeps p publish started_at)
            λ policy. >>=-Keeps (now system) _ now-Keeps (λ _. return-Keeps _)

  save-Keeps : (m : Manifest) → Keeps acl (save_manifest system workshop m)
  save-Keeps m = Only-Keeps (save_manifest system workshop m) (save_manifest-Only system workshop m)

  run_build-Keeps :
      (p : BuildPlan) (publish allow_stale : Bool)
      → Keeps acl (run_build system workshop p publish allow_stale)
  unfolding run_build
  run_build-Keeps p publish allow_stale = >>=-Keeps (now system) _ now-Keeps λ started_at.
      >>=-Keeps (lift (age_verdict p)) _ (Only-Keeps _ (search effects)) λ verdict.
        >>=-Keeps (throw_if (is_stale verdict.0 && not allow_stale) _) _
          (Only-Keeps (throw_if (is_stale verdict.0 && not allow_stale) _) (search effects))
          λ _.
            >>=-Keeps (save_manifest system workshop p.manifest) _ (save-Keeps p.manifest)
              λ _. if-Keeps (is_noop p) _ _ (return-Keeps _) (run_plan-Keeps p publish started_at)

  carry_out-Keeps :
      (p : BuildPlan) (allow_stale publish dry_run : Bool) (before_run : Action (Unit {0}))
      → Only starts_none before_run
      → Keeps acl (carry_out system workshop p allow_stale publish dry_run before_run)
  unfolding carry_out
  carry_out-Keeps p allow_stale publish dry_run before_run only =
      if-Keeps dry_run _ _ (return-Keeps _) (
        if-Keeps (is_noop p) _ _
          (>>=-Keeps (when p.dirty_manifest (save_manifest system workshop p.manifest)) _
            (when-Keeps p.dirty_manifest _ (save-Keeps p.manifest)) (λ _. return-Keeps _))
          (>>=-Keeps (when (not (is_empty (to_build p))) before_run) _
            (when-Keeps (not (is_empty (to_build p))) before_run (Only-Keeps before_run only))
            (λ _. run_build-Keeps p publish allow_stale)))

  pub build-Keeps :
      (request : Request) (allow_stale publish dry_run wait : Bool) (before_run : Action (Unit {0}))
      → Only starts_none before_run
      → Keeps acl (build system workshop request allow_stale publish dry_run wait before_run)
  unfolding build held
  build-Keeps request allow_stale publish dry_run wait before_run only = record {
    keeps = λ s g. elim (Bool-cases (wait || workshop.is_unlocked s.history)) [
      | inl free ↦ rw free (planned.keeps s g)
      | inr locked ↦ rw locked g
    ];
  }
    where
      prefix : String
      prefix = if dry_run then "[dry-run] " else ""

      planned : Keeps acl (
          plan system workshop request >>= λ p. lift (plan_lines p) >>= λ lines.
          say_all (λ line. prefix <> line) lines
          >> carry_out system workshop p
              (allow_stale || request.refresh)
              publish
              dry_run
              before_run)
      planned =
          >>=-Keeps (plan system workshop request) _
            (Only-Keeps _ (query-Startless _ (plan-Only system workshop request)))
            λ p.
              >>=-Keeps (lift (plan_lines p)) _ (Only-Keeps (lift (plan_lines p)) (search effects))
                λ lines.
                  >>=-Keeps (say_all (λ line. prefix <> line) lines) _
                    (Only-Keeps _ (query-Startless _ (lines-Only system workshop prefix lines)))
                    λ _.
                      carry_out-Keeps p (allow_stale || request.refresh) publish dry_run before_run
                        only
