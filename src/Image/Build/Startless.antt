-- ===== src/Image/Build/Startless.antt =====
-- The statements of a build that start no VM.
use derico_sandbox.FilePath.{FilePath}
use derico_sandbox.Config.Project.{ProjectConfig}
use derico_sandbox.Errors.{Error}
use derico_sandbox.Image.Build.{
  annotate_failure, detach_all, publish_chain, publish_last, release_acl, remove_leftover_workers,
  remove_workers,
}
use derico_sandbox.Image.Build.DryRun.{is_query, wall_time-Only, list_instances-Only}
use derico_sandbox.Image.BuildPlan.{BuildPlan}
use derico_sandbox.Image.Builder.{save_manifest}
use derico_sandbox.Image.Cache.{
  Workshop, commit_worker, discard, perform, perform_all, wall_time, workers,
}
use derico_sandbox.Image.Entries.{CacheEntry, Command, delete_instance, rename_instance, set_config}
use derico_sandbox.Image.Keys.{StageKey}
use derico_sandbox.Image.Manifest.{Manifest}
use derico_sandbox.Image.Stages.{Stage}
use derico_sandbox.Image.Workers.{
  copy_parent, fail_stage, first_worker, init_worker, new_worker, push_file, push_files, run_script,
  worker_argv, script_argv,
}
use derico_sandbox.Incus.Client.{
  copy_instance, delete, list_instances, publish_image, rename, write_config,
}
use derico_sandbox.Incus.Guarded.{quiet-starts_none}
use derico_sandbox.Incus.Guest.{unpin_allowlist, wait_for_agent_within, wait_for_guest_command}
use derico_sandbox.Incus.Network.{
  apply_acl, blocked_forwarding_remedy, default_network, admin_acl_query, delete_acl, detach_acl,
  write_acl,
}
use derico_sandbox.Incus.Quiet.{
  is_incus, is_quiet, starts_none, word, create_acl-Only, prepare_policy-Only, wait_loop-Only,
}
use derico_sandbox.Prelude.{
  Bool, Bool-cases, List, Option, String, [], ◌∷◌, ◌≡◌, inl, inr, none, some, true, false, ℕ,
  string_Eq, ◌==◌, arith, nat_Eq, refl, ◌<>◌,
}
use derico_sandbox.System.{Action, Event, System, ran, say}
use derico_sandbox.System.Effects.{>>=-Only, Only, effects}

Only-weaken {ℓ} :
    {X : Type ℓ} (test weaker : Event → Bool) (act : Action X)
    → ((e : Event) → test e ≡ true → weaker e ≡ true)
    → Only test act
    → Only weaker act
Only-weaken test weaker act below only = record {
  keeps = λ I step s i. only.keeps I (λ h e q. step h e (below e q)) s i;
}

pub quiet-Startless {ℓ} : {X : Type ℓ} (act : Action X) → Only is_quiet act → Only starts_none act
quiet-Startless act = Only-weaken is_quiet starts_none act quiet-starts_none

query-starts_none : (e : Event) → is_query e ≡ true → starts_none e ≡ true
query-starts_none (ran args reply) q = elim (Bool-cases (is_incus args)) [
  | inl a ↦ elim (Bool-cases (word 4 args == "start")) [
    | inl b ↦ let r = rw (a, (string_Eq.beq_iff (word 4 args) "start").0 b) at q in cc
    | inr b ↦ rw (a, b) refl
  ]
  | inr a ↦ rw a refl
]
query-starts_none e q = ground arith

pub query-Startless {ℓ} : {X : Type ℓ} (act : Action X) → Only is_query act → Only starts_none act
query-Startless act = Only-weaken is_query starts_none act query-starts_none

module _ (system : System) (workshop : Workshop) where
  discard-Only : (worker : String) (keep : Bool) → Only starts_none (discard system worker keep)
  unfolding discard delete
  discard-Only worker keep = search effects

  detach_acl-Only : (instance_ : String) → Only starts_none (detach_acl system instance_)
  unfolding detach_acl
  detach_acl-Only instance_ = search effects

  delete_acl-Only : (config : ProjectConfig) → Only starts_none (delete_acl system config)
  unfolding delete_acl admin_acl_query
  delete_acl-Only config = search effects

  detach_all-Only : (es : List CacheEntry) → Only starts_none (detach_all system workshop es)
  unfolding detach_all
  detach_all-Only [] = search effects
  detach_all-Only (e ∷ es) =
      >>=-Only starts_none (detach_acl system e.instance_name) (λ _. detach_all system workshop es)
        (detach_acl-Only e.instance_name) (λ _. detach_all-Only es)

  pub release_acl-Only : (p : BuildPlan) → Only starts_none (release_acl system workshop p)
  unfolding release_acl
  release_acl-Only p = search (effects, detach_all-Only, delete_acl-Only)

  remove_workers-Only :
      (left : List String) → Only starts_none (remove_workers system workshop left)
  unfolding remove_workers delete
  remove_workers-Only [] = search effects
  remove_workers-Only (worker ∷ rest) =
      >>=-Only starts_none (say ("cleanup  removing leftover worker " <> worker)) _ (search effects)
        λ _.
          >>=-Only starts_none (delete system worker false) _ (search effects)
            λ _. remove_workers-Only rest

  init_worker-Only :
      (p : BuildPlan) (worker : String) → Only starts_none (init_worker system workshop p worker)
  unfolding init_worker worker_argv
  init_worker-Only p worker = search effects

  listing-Startless : (prefix : String) → Only starts_none (list_instances system prefix)
  listing-Startless prefix =
      query-Startless (list_instances system prefix) (list_instances-Only system workshop prefix)

  pub remove_leftover_workers-Only : Only starts_none (remove_leftover_workers system workshop)
  unfolding remove_leftover_workers workers
  remove_leftover_workers-Only = search (effects, listing-Startless, remove_workers-Only)

  push_file-Only :
      (worker : String) (path : FilePath) → Only starts_none (push_file system workshop worker path)
  unfolding push_file
  push_file-Only worker path = search effects

  push_files-Only :
      (worker : String) (paths : List FilePath)
      → Only starts_none (push_files system workshop worker paths)
  unfolding push_files
  push_files-Only worker [] = search effects
  push_files-Only worker (path ∷ paths) =
      >>=-Only starts_none (push_file system workshop worker path) _ (push_file-Only worker path)
        λ _. push_files-Only worker paths

  pub run_script-Only :
      (p : BuildPlan) (stage : Stage) (worker : String)
      → Only starts_none (run_script system workshop p stage worker)
  unfolding run_script script_argv unpin_allowlist
  run_script-Only p stage worker = search (effects, push_files-Only, detach_acl-Only) depth 16

  pub copy_parent-Only :
      (parent : Option String) (worker : String)
      → Only starts_none (copy_parent system workshop parent worker)
  unfolding copy_parent copy_instance
  copy_parent-Only none worker = search effects
  copy_parent-Only (some parent) worker = search effects

  pub fail_stage-Only :
      (stage : Stage) (worker : String) (keep : Bool) (raised : Error)
      → Only starts_none (fail_stage system workshop stage worker keep raised)
  unfolding fail_stage
  fail_stage-Only stage worker keep raised = search (effects, discard-Only)

  pub first_worker-Only :
      (p : BuildPlan) (parent : Option String) (worker : String)
      → Only starts_none (first_worker system workshop p parent worker)
  first_worker-Only p none worker = init_worker-Only p worker
  first_worker-Only p (some parent) worker = search effects

  perform-Only : (check : Bool) (c : Command) → Only starts_none (perform system check c)
  unfolding perform write_config delete rename
  perform-Only check (set_config worker values) = search effects
  perform-Only check (delete_instance instance_) = search effects
  perform-Only check (rename_instance worker instance_) = search effects

  perform_all-Only :
      (check : Bool) (cs : List Command) → Only starts_none (perform_all system check cs)
  unfolding perform_all
  perform_all-Only check [] = search effects
  perform_all-Only check (c ∷ cs) =
      >>=-Only starts_none (perform system check c) _ (perform-Only check c)
        λ _. perform_all-Only check cs

  wall_time-Startless : Only starts_none (wall_time system workshop)
  wall_time-Startless = query-Startless (wall_time system workshop) (wall_time-Only system workshop)

  pub commit_worker-Only :
      (worker : String) (key : StageKey) (source : String) (hosts : List String)
      (existing : Option CacheEntry)
      → Only starts_none (commit_worker system workshop worker key source hosts existing)
  unfolding commit_worker
  commit_worker-Only worker key source hosts existing =
      search (effects, wall_time-Startless, perform_all-Only)

  pub new_worker-Only : (key : StageKey) → Only starts_none (new_worker system workshop key)
  unfolding new_worker
  new_worker-Only key = record { keeps = λ I step s i. i }

  pub save_manifest-Only : (m : Manifest) → Only starts_none (save_manifest system workshop m)
  unfolding save_manifest
  save_manifest-Only m = record { keeps = λ I step s i. i }

  publish_chain-Only :
      (p : BuildPlan) (template : CacheEntry) (rebuilt started : ℕ)
      → Only starts_none (publish_chain system workshop p template rebuilt started)
  unfolding publish_chain publish_image
  publish_chain-Only p template rebuilt started = search effects depth 12

  pub publish_last-Only :
      (p : BuildPlan) (publish : Bool) (rebuilt started : ℕ) (last : Option CacheEntry)
      → Only starts_none (publish_last system workshop p publish rebuilt started last)
  unfolding publish_last
  publish_last-Only p publish rebuilt started none = search effects
  publish_last-Only p publish rebuilt started (some template) = search (effects, publish_chain-Only)

  pub annotate_failure-Only : Only starts_none (annotate_failure system workshop)
  unfolding annotate_failure default_network blocked_forwarding_remedy
  annotate_failure-Only = search effects depth 16

  pub apply_acl-Only : (config : ProjectConfig) → Only is_quiet (apply_acl system config)
  unfolding apply_acl write_acl admin_acl_query
  apply_acl-Only config = search (effects, prepare_policy-Only, create_acl-Only) depth 16

  pub wait_for_agent_within-Only :
      (timeout : ℕ) (instance_ : String)
      → Only is_quiet (wait_for_agent_within system timeout instance_)
  unfolding wait_for_agent_within wait_for_guest_command
  wait_for_agent_within-Only timeout instance_ = search (effects, wait_loop-Only)
