-- ===== src/Image/Workers.antt =====
-- imagebuild.py: how a stage is built: `build_project_config`, and `_init_worker`, `_build_stage` and the loop over the
-- stages of `ImageBuilder`.
use derico_sandbox.FilePath
use derico_sandbox.Config.Project.{ProjectConfig, Resources}
use derico_sandbox.Errors.{Error, image_error, missing_helper, no_worker, ok, stage_failed}
use derico_sandbox.FilePath.{FilePath}
use derico_sandbox.Image.BuildPlan.{BuildPlan}
use derico_sandbox.Image.Cache.{Workshop, commit_worker, discard}
use derico_sandbox.Image.Entries.{CacheEntry}
use derico_sandbox.Image.Keys.{StageKey, stage_arguments}
use derico_sandbox.Image.Plan.{PlanStep}
use derico_sandbox.Image.Report.{status}
use derico_sandbox.Image.Stages.{Stage}
use derico_sandbox.Incus.Client.{call, command, copy_instance, detail_of}
use derico_sandbox.Incus.Guest.{in_guest, pin_allowlist, unpin_allowlist, wait_for_agent_within}
use derico_sandbox.Incus.Images.{partition}
use derico_sandbox.Incus.Network.{attach_acl, detach_acl}
use derico_sandbox.Prelude.{
  Bool, List, Option, String, [], false, if◌then◌else◌, map, nat_Eq, none, not, some, string_Eq,
  true, ◌++◌, ◌<>◌, ◌∷◌,
}
use derico_sandbox.Prelude.Decimal.{show}
use derico_sandbox.Prelude.Dict.{get}
use derico_sandbox.Prelude.Text.{pad}
use derico_sandbox.Security.Acl.{AclPolicy}
use derico_sandbox.Security.Endpoints.{https}
use derico_sandbox.System.{
  ◌>>=◌, ◌>>◌, Action, System, attempt, failed, return, say, throw, throw_if,
}

abbrev pub build_resources : Resources
build_resources = record { cpus = 4; memory = "8GiB"; disk = "30GiB" }

-- The image that `_init_worker` starts from.
unfoldable pub pinned_image : BuildPlan → String
pinned_image p = elim (partition p.source) [
  | some (remote, alias) ↦ remote <> ":" <> p.pinned.fingerprint
  | none ↦ p.pinned.fingerprint
]

unfoldable pub worker_argv : BuildPlan → String → List String
worker_argv p worker =
    "init"
    ∷ pinned_image p
    ∷ worker
    ∷ "--vm"
    ∷ "--config"
    ∷ ("limits.cpu=" <> show build_resources.cpus)
    ∷ "--config"
    ∷ ("limits.memory=" <> build_resources.memory)
    ∷ "--device"
    ∷ ("root,size=" <> build_resources.disk)
    ∷ []

abbrev root_path : FilePath → String
root_path path = "/root/" <> FilePath.name path

abbrev pub parent_name : Option CacheEntry → Option String
parent_name none = none
parent_name (some e) = some e.instance_name

module _ (system : System) (workshop : Workshop) where
  -- `build_project_config`
  unfoldable pub build_project_config : String → List String → ProjectConfig
  build_project_config source build_allow = record {
    path = system.host.home ++ ".config" ∷ "sandboxsh" ∷ "image-builder.json" ∷ [];
    name = "image-builder";
    workdir = "/root";
    mounts = [];
    ports = [];
    firewall_enabled = true;
    firewall_allow =
        map https
          ("claude.ai" ∷ "downloads.claude.ai" ∷ "pi.dev" ∷ "storage.googleapis.com" ∷ build_allow);
    resources = build_resources;
    image = source;
    agent_credentials = false;
    tailscale = record { enabled = true; address = none };
  }

  abbrev pub config_of : BuildPlan → ProjectConfig
  config_of p = build_project_config p.source p.inputs.build_allow

  -- `_init_worker`
  unfoldable pub init_worker : BuildPlan → String → Action (Unit {0})
  init_worker p worker = do
    r ← command system (worker_argv p worker) false none
    throw_if (failed r)
        (image_error (no_worker p.pinned.fingerprint (detail_of "unknown Incus error" r)))

  unfoldable pub push_file : String → FilePath → Action (Unit {0})
  push_file worker path = do
    throw_if (not (workshop.guest.is_file path))
        (image_error (missing_helper (FilePath.render path)))
    call system ("file" ∷ "push" ∷ FilePath.render path ∷ (worker <> root_path path) ∷ [])

  unfoldable pub push_files : String → List FilePath → Action (Unit {0})
  push_files worker [] = return tt
  push_files worker (path ∷ paths) = push_file worker path >> push_files worker paths

  abbrev files_of : Stage → List FilePath
  files_of stage = stage.script ∷ map workshop.settings.helper_path stage.files

  unfoldable pub script_argv : BuildPlan → Stage → String → List String
  script_argv p stage worker =
      "exec"
      ∷ worker
      ∷ "--disable-stdin"
      ∷ "--"
      ∷ "bash"
      ∷ root_path stage.script
      ∷ stage_arguments stage.arguments p.inputs

  -- The worker comes up under the ACL.
  unfoldable pub boot_worker : BuildPlan → AclPolicy → String → Action (Unit {0})
  boot_worker p policy worker = do
    attach_acl system (config_of p) worker
    call system ("start" ∷ worker ∷ [])
    wait_for_agent_within system 600000 worker
    status ← command system (in_guest worker ("cloud-init" ∷ "status" ∷ "--wait" ∷ [])) false none
    pin_allowlist system policy worker

  -- The script runs, and the worker is left as a cache entry wants it.
  unfoldable pub run_script : BuildPlan → Stage → String → Action (Unit {0})
  run_script p stage worker = do
    push_files worker (files_of stage)
    call system (script_argv p stage worker)
    call system (in_guest worker ("rm" ∷ "-f" ∷ map root_path (files_of stage)))
    unpin_allowlist system worker
    call system (in_guest worker ("sync" ∷ []))
    call system ("stop" ∷ worker ∷ "--force" ∷ [])
    detach_acl system worker

  unfoldable pub copy_parent : Option String → String → Action (Unit {0})
  copy_parent none worker = return tt
  copy_parent (some parent) worker = copy_instance system parent worker

  -- The `try` of `_build_stage`.
  unfoldable pub make_stage :
      BuildPlan → AclPolicy → Stage → Option String → String → Action (Unit {0})
  make_stage p policy stage parent worker = do
    copy_parent parent worker
    boot_worker p policy worker
    run_script p stage worker

  -- Its handler.
  unfoldable pub fail_stage : Stage → String → Bool → Error → Action (Unit {0})
  fail_stage stage worker keep raised =
      discard system worker keep >> throw (image_error (stage_failed stage.name worker keep))

  abbrev pub first_worker : BuildPlan → Option String → String → Action (Unit {0})
  first_worker p none worker = init_worker p worker
  first_worker p (some parent) worker = return tt

  abbrev pub replaced_entry : BuildPlan → StageKey → Option CacheEntry
  replaced_entry p key = if p.no_cache then get p.entries key.key else none

  -- `worker`, with a new token
  unfoldable pub new_worker : StageKey → Action String
  new_worker key s = (ok ("sandboxsh-build-" <> key.key <> "-" <> workshop.token s.history), s)

  -- `_build_stage`
  unfoldable pub build_stage :
      BuildPlan → AclPolicy → StageKey → Option CacheEntry → Action CacheEntry
  build_stage p policy key parent = do
    worker ← new_worker key
    say ("build    " <> pad 16 key.stage.name <> " worker " <> worker)
    first_worker p (parent_name parent) worker
    attempt (make_stage p policy key.stage (parent_name parent) worker)
        (fail_stage key.stage worker workshop.settings.keep_failed)
    commit_worker system workshop worker key p.pinned.fingerprint p.inputs.build_allow
        (replaced_entry p key)

  -- The loop over `to_build`.
  unfoldable pub build_stages :
      BuildPlan → AclPolicy → List PlanStep → Option CacheEntry → Action (Option CacheEntry)
  build_stages p policy [] parent = return parent
  build_stages p policy (step ∷ steps) parent =
      build_stage p policy step.key parent >>= λ entry. build_stages p policy steps (some entry)
