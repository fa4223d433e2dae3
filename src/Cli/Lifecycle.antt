-- ===== src/Cli/Lifecycle.antt =====
-- cli.py: the commands that change the life of the VM: `up`, `shell`, `exec`, `agent`, `down`, `destroy`
-- and `recreate`. `config` stands for `context.config()`, which reads the file each time.
pub mod Guarded
use derico_sandbox.Security.Acl.{AclPolicy}
use derico_sandbox.Cli.Ports.{
  prime_sudo, publish_and_report, release, report_unresolved_defaults, verify_and_approve, withdraw,
}
use derico_sandbox.Config.Project.{ProjectConfig, instance_name}
use derico_sandbox.Errors.{Error, cli_error, destroy_cancelled, not_running, recreate_cancelled}
use derico_sandbox.Image.Entries.{Instance}
use derico_sandbox.Incus.Client.{instance_exists, instance_status, verify_host_access}
use derico_sandbox.Incus.Guest.{
  exec_argv, pin_allowlist, shell_argv, wait_for_agent, wait_for_mount,
}
use derico_sandbox.Incus.Instance.{create_instance, destroy}
use derico_sandbox.Incus.Mounts.{assert_immutable_config, sync_mounts}
use derico_sandbox.Incus.Network.{apply_acl, attach_acl}
use derico_sandbox.Incus.Values.{is_text}
use derico_sandbox.Json.{Value}
use derico_sandbox.Prelude.{
  Bool, List, Option, String, [], false, if◌then◌else◌, length, not, ◌<>◌, ◌∷◌,
}
use derico_sandbox.Prelude.Decimal.{show}
use derico_sandbox.Errors
use derico_sandbox.Incus.Instance
use derico_sandbox.Publish
use mathlib.Core.Option
use derico_sandbox.System.{
  Action, Output, State, System, emit, exec, failed, lift, return, throw, throw_if, when, ask,
  ◌>>=◌, ◌>>◌, say, say_all,
}

-- `status != "Running"`
abbrev pub is_running : Option Value → Bool
is_running status = is_text "Running" status

module _ (system : System) where
  unfoldable pub wait_for_mounts : String → List String → Action (Unit {0})
  wait_for_mounts instance_ [] = return tt
  wait_for_mounts instance_ (target ∷ rest) = do
    wait_for_mount system instance_ target
    say ("mounted: " <> target)
    wait_for_mounts instance_ rest

  -- What `_up` does in a guest that has started.
  unfoldable pub settle_guest : String → AclPolicy → List String × List String → Action (Unit {0})
  settle_guest instance_ policy changes = do
    pin_allowlist system policy instance_
    wait_for_mounts instance_ changes.0
    say_all (λ target. "unmounted: " <> target) changes.1
    say ("Attached to persistent VM " <> instance_ <> ".")

  unfoldable pub restart : ProjectConfig → String → AclPolicy → Action (Unit {0})
  restart config instance_ policy = do
    report_unresolved_defaults policy
    attach_acl system config instance_
    Instance.start system config

  -- `_up`, of a VM that exists
  unfoldable pub attach_existing : ProjectConfig → String → Action (Unit {0})
  attach_existing config instance_ = do
    assert_immutable_config system config
    changes ← sync_mounts system config
    policy ← apply_acl system config
    restart config instance_ policy
    settle_guest instance_ policy changes

  -- `_up`, of a VM that does not
  unfoldable pub create_new : ProjectConfig → String → Action (Unit {0})
  create_new config instance_ = do
    say ("Creating persistent VM " <> instance_ <> "...")
    policy ← create_instance system config
    report_unresolved_defaults policy
    say ("Created VM with " <> show (length policy.egress) <> " host-enforced egress rules.")

  unfoldable pub authorize : ProjectConfig → Action (Unit {0})
  authorize config = do
    verify_and_approve system config
    prime_sudo system "apply this project's host-enforced firewall"

  -- `_up` as far as the VM runs
  unfoldable pub bring_up : ProjectConfig → Action (Unit {0})
  bring_up config = do
    authorize config
    instance_ ← lift (instance_name system.platform config)
    there ← instance_exists system instance_
    if there then attach_existing config instance_ else create_new config instance_

  abbrev enter : ProjectConfig → Action (Unit {0})
  enter config = lift (shell_argv system config) >>= λ args. exec system args

  -- The end of `_up`
  unfoldable pub hand_over : ProjectConfig → Bool → Action (Unit {0})
  hand_over config enter_shell = do
    publish_and_report system config
    when enter_shell (enter config)

  -- `_up`
  unfoldable pub up : ProjectConfig → Bool → Action (Unit {0})
  up config enter_shell = bring_up config >> hand_over config enter_shell

  -- The VM runs, and its agent answers.
  unfoldable pub require_running : ProjectConfig → Action (Unit {0})
  require_running config = do
    project_name ← verify_host_access system
    instance_ ← lift (instance_name system.platform config)
    status ← instance_status system instance_
    throw_if (not (is_running status)) (cli_error not_running)
    wait_for_agent system instance_

  -- `shell_command`
  unfoldable pub shell_command : ProjectConfig → Action (Unit {0})
  shell_command config = require_running config >> enter config

  abbrev run_inside : ProjectConfig → List String → Action (Unit {0})
  run_inside config args = lift (exec_argv system config args) >>= λ full. exec system full

  -- `exec_command`
  unfoldable pub exec_command : ProjectConfig → List String → Action (Unit {0})
  exec_command config args = require_running config >> run_inside config args

  -- `agent_command`, of the configuration before and after the VM is up
  unfoldable pub agent_command :
      ProjectConfig → ProjectConfig → String → List String → Action (Unit {0})
  agent_command config reloaded agent arguments = do
    up config false
    run_inside reloaded (agent ∷ arguments)

  -- `down_command`
  unfoldable pub down_command : ProjectConfig → Action (Unit {0})
  down_command config = do
    project_name ← verify_host_access system
    when (Publish.helper_available system)
        (prime_sudo system "withdraw this project's published ports")
    withdraw system config
    Instance.stop system config
    instance_ ← lift (instance_name system.platform config)
    say ("Stopped " <> instance_ <> "; its disk is preserved.")

  -- `if not yes and not click.confirm(...): raise`
  unfoldable pub confirmed : Bool → String → Error → Action (Unit {0})
  confirmed sure question refused =
      when (not sure) (ask system question >>= λ accepted. throw_if (not accepted) refused)

  -- `destroy_command`
  unfoldable pub destroy_command : ProjectConfig → Bool → Action (Unit {0})
  destroy_command config sure = do
    project_name ← verify_host_access system
    instance_ ← lift (instance_name system.platform config)
    confirmed sure ("Delete " <> instance_ <> " and all VM-local credentials/state?")
        (cli_error destroy_cancelled)
    prime_sudo system "delete this project's network ACL"
    withdraw system config
    release system config
    destroy system config
    say ("Deleted " <> instance_ <> ". Shared agent credentials were kept.")

  unfoldable pub replace_existing : ProjectConfig → Bool → Action (Unit {0})
  replace_existing config sure = do
    confirmed sure "Delete the VM-local disk and project credentials, then recreate?"
        (cli_error recreate_cancelled)
    prime_sudo system "replace this project's VM and network ACL"
    destroy system config

  -- `recreate_command`, of the configuration before and after the VM is deleted
  unfoldable pub recreate_command : ProjectConfig → ProjectConfig → Bool → Bool → Action (Unit {0})
  recreate_command config reloaded sure enter_shell = do
    verify_and_approve system config
    instance_ ← lift (instance_name system.platform config)
    there ← instance_exists system instance_
    when there (replace_existing config sure)
    up reloaded enter_shell
