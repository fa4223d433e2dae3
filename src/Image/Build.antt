-- ===== src/Image/Build.antt =====
-- imagebuild.py: the running of a build: `BuildReport`, and `_release_acl`, `_remove_leftover_workers`, `_publish`,
-- `_annotate_failure`, `run` and `build` of `ImageBuilder`. incus.py: `Incus.build_image`.
pub mod DryRun
pub mod Template
pub mod Startless
pub mod Attached
pub mod Guarded
use derico_sandbox.Image.Workers.{build_resources, build_stages, config_of}
use derico_sandbox.FilePath
use derico_sandbox.Config.Project.{ProjectConfig, Resources}
use derico_sandbox.Errors.{
  Error, Result, assertion_error, crash, err, image_error, missing_helper, no_worker, ok,
  stage_failed, stale_entry,
}
use derico_sandbox.FilePath.{FilePath}
use derico_sandbox.Image.BuildPlan.{
  BuildPlan, Verdict, age_verdict, is_noop, reused_entry, to_build,
}
use derico_sandbox.Image.Builder.{Request, held, save_manifest}
use derico_sandbox.Image.Cache.{Workshop, commit_worker, discard, workers}
use derico_sandbox.Image.Entries.{CacheEntry}
use derico_sandbox.Image.Keys.{StageKey, stage_arguments}
use derico_sandbox.Image.Plan.{PlanStep, published, no_cache}
use derico_sandbox.Image.Report.{format_elapsed, key_text, plan_lines, status}
use derico_sandbox.Image.Stages.{Stage, stage_names}
use derico_sandbox.Incus.Client.{call, command, copy_instance, delete, detail_of, publish_image}
use derico_sandbox.Incus.Guest.{in_guest, pin_allowlist, unpin_allowlist, wait_for_agent_within}
use derico_sandbox.Incus.Images.{partition}
use derico_sandbox.Incus.Network.{
  apply_acl, attach_acl, blocked_forwarding_remedy, default_network, delete_acl, detach_acl,
}
use derico_sandbox.Prelude.{
  Bool, List, Option, String, [], false, if◌then◌else◌, is_empty, length, map, nat_Eq, none, not,
  some, string_Eq, true, ℕ, ◌&&◌, ◌*◌, ◌++◌, ◌-◌, ◌<>◌, ◌||◌, ◌∷◌,
}
use derico_sandbox.Prelude.Decimal.{show}
use derico_sandbox.Prelude.Dict.{Dict, get}
use derico_sandbox.Prelude.Text.{join, pad}
use derico_sandbox.Publish.{tailscale}
use derico_sandbox.Security.Acl.{AclPolicy}
use derico_sandbox.Security.Endpoints.{https}
use derico_sandbox.Errors
use derico_sandbox.Image.BuildPlan.{stale}
use derico_sandbox.Prelude.Dict.{values}
use derico_sandbox.System.{now}
use derico_sandbox.Image.Builder.{plan}
use derico_sandbox.System.{
  ◌>>=◌, ◌>>◌, Action, State, System, attempt, failed, lift, return, say, say_all, throw, throw_if,
  when,
}

pub record BuildReport : Type 0 where
  pub plan : BuildPlan
  pub policy : Option AclPolicy
  pub published : Bool
  pub rebuilt : ℕ
  pub elapsed : ℕ
  pub dry_run : Bool

-- A report of a run that has built nothing.
abbrev idle_report : BuildPlan → Bool → BuildReport
idle_report plan dry_run = record {
  plan = plan;
  policy = none;
  published = false;
  rebuilt = 0;
  elapsed = 0;
  dry_run = dry_run;
}

-- `kept_worker` of a failure
abbrev pub keeps_worker : Error → Bool
keeps_worker (image_error (stage_failed stage worker kept)) = kept
keeps_worker _ = false

abbrev pub is_stale : Verdict → Bool
is_stale stale = true
is_stale _ = false

-- The properties of the image that `_publish` makes.
unfoldable pub published_properties : BuildPlan → Dict String String
published_properties p =
    ("user.sandboxsh.build_key", key_text p)
    ∷ ("user.sandboxsh.source", p.pinned.fingerprint)
    ∷ ("user.sandboxsh.stages", join "," (stage_names p.inputs.stages))
    ∷ ("user.sandboxsh.disk", build_resources.disk)
    ∷ []

-- The arguments of `build` where a caller gives the image and the source alone.
abbrev plain_request : String → String → Request
plain_request image source = record {
  alias = image;
  source = source;
  refresh = false;
  refresh_from = none;
  no_cache = false;
  generation = none;
}

module _ (system : System) (workshop : Workshop) where
  unfoldable pub detach_all : List CacheEntry → Action (Unit {0})
  detach_all [] = return tt
  detach_all (e ∷ es) = detach_acl system e.instance_name >> detach_all es

  -- `_release_acl`
  unfoldable pub release_acl : BuildPlan → Action (Unit {0})
  release_acl p = detach_all (values p.entries) >> delete_acl system (config_of system workshop p)

  unfoldable pub remove_workers : List String → Action (Unit {0})
  remove_workers [] = return tt
  remove_workers (worker ∷ rest) =
      say ("cleanup  removing leftover worker " <> worker)
      >> delete system worker false
      >> remove_workers rest

  -- `_remove_leftover_workers`
  unfoldable pub remove_leftover_workers : Action (Unit {0})
  remove_leftover_workers = do left ← workers system; remove_workers left

  -- `_publish`
  unfoldable pub publish_chain : BuildPlan → CacheEntry → ℕ → ℕ → Action (Unit {0})
  publish_chain p template rebuilt started = do
    publish_image system template.instance_name p.alias (published_properties p)
    ended ← now system
    say (
        "publish  "
        <> pad 16 p.alias
        <> " build_key "
        <> key_text p
        <> " ("
        <> show rebuilt
        <> " of "
        <> show (length p.steps)
        <> " stages rebuilt, "
        <> format_elapsed (ended - started)
        <> ")")

  -- `assert parent is not None`, and the publication.
  unfoldable pub publish_last : BuildPlan → Bool → ℕ → ℕ → Option CacheEntry → Action (Unit {0})
  publish_last p publish rebuilt started none = throw (crash assertion_error)
  publish_last p publish rebuilt started (some template) =
      when publish (publish_chain p template rebuilt started)

  -- `_annotate_failure`: what it asks of the host.
  unfoldable pub annotate_failure : Action (Unit {0})
  annotate_failure =
      attempt
        (default_network system >>= λ network.
          blocked_forwarding_remedy system network >>= λ remedy. return tt)
        (λ raised. return tt)

  -- The `finally` of `run`, where the ACL has been written.
  unfoldable pub settle_build {ℓ} : {X : Type ℓ} → BuildPlan → Result X × State → Result X × State
  settle_build p (ok x, s) = (release_acl p >> return x) s
  settle_build p (err raised, s) =
      let released =
        if keeps_worker raised then return tt else attempt (release_acl p) (λ cleanup. return tt) in
      (annotate_failure >> released >> throw raised) s

  -- And where it has not.
  unfoldable pub settle_unwritten {ℓ} : {X : Type ℓ} → Result X × State → Result X × State
  settle_unwritten (ok x, s) = (ok x, s)
  settle_unwritten (err raised, s) = (annotate_failure >> throw raised) s

  unfoldable pub make_chain : BuildPlan → Bool → ℕ → AclPolicy → Action (Unit {0})
  make_chain p publish started policy = do
    last ← build_stages system workshop p policy (to_build p) (reused_entry p)
    publish_last p publish (length (to_build p)) started last

  unfoldable pub write_build_acl : BuildPlan → Action AclPolicy
  write_build_acl p s = settle_unwritten (apply_acl system (config_of system workshop p) s)

  unfoldable pub guarded_chain : BuildPlan → Bool → ℕ → AclPolicy → Action (Unit {0})
  guarded_chain p publish started policy s = settle_build p (make_chain p publish started policy s)

  pub publish_reused : BuildPlan → Bool → ℕ → Action (Unit {0})
  publish_reused p publish started s =
      settle_unwritten (publish_last p publish 0 started (reused_entry p) s)

  -- The outer `try` of `run`: the policy, where stages are built.
  unfoldable pub run_chain : BuildPlan → Bool → ℕ → Action (Option AclPolicy)
  run_chain p publish started =
      let built = do
        policy ← write_build_acl p
        guarded_chain p publish started policy
        return (some policy)
      in if is_empty (to_build p) then publish_reused p publish started >> return none else built

  unfoldable pub run_plan : BuildPlan → Bool → ℕ → Action BuildReport
  run_plan p publish started = do
    remove_leftover_workers
    policy ← run_chain p publish started
    ended ← now system
    return (record {
      plan = p;
      policy = policy;
      published = publish;
      rebuilt = length (to_build p);
      elapsed = ended - started;
      dry_run = false;
    })

  -- `ImageBuilder.run`
  unfoldable pub run_build : BuildPlan → Bool → Bool → Action BuildReport
  run_build p publish allow_stale = do
    started ← now system
    verdict ← lift (age_verdict p)
    throw_if (is_stale verdict.0 && not allow_stale)
        (image_error (stale_entry (p.max_age_days * 3)))
    save_manifest system workshop p.manifest
    if is_noop p then return (idle_report p false) else run_plan p publish started

  -- What `build` does with its plan; `before_run` comes before the stages that are to be built.
  unfoldable pub carry_out : BuildPlan → Bool → Bool → Bool → Action (Unit {0}) → Action BuildReport
  carry_out p allow_stale publish dry_run before_run =
      let idle = do
        when p.dirty_manifest (save_manifest system workshop p.manifest)
        return (idle_report p false)
      in let started = do
        when (not (is_empty (to_build p))) before_run
        run_build p publish allow_stale
        in if dry_run then return (idle_report p true) else if is_noop p then idle else started

  -- `ImageBuilder.build`
  unfoldable pub build :
      Request → Bool → Bool → Bool → Bool → Action (Unit {0}) → Action BuildReport
  build request allow_stale publish dry_run wait before_run =
      let prefix = if dry_run then "[dry-run] " else "" in
      held system workshop wait (
        plan system workshop request >>= λ p. lift (plan_lines p) >>= λ lines.
        say_all (λ line. prefix <> line) lines
        >> carry_out p (allow_stale || request.refresh) publish dry_run before_run)

  -- `Incus.build_image`
  abbrev build_image : String → String → Action (Option AclPolicy)
  build_image image source = do
    report ← build (plain_request image source) false true false true (return tt)
    return report.policy
