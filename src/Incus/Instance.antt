-- ===== src/Incus/Instance.antt =====
-- incus.py: an instance from `create_instance` to `destroy`, and the query of the address that it holds.
pub mod Cleanup
use derico_sandbox.Incus.Address.{address_among, interfaces_in}
use derico_sandbox.Prelude.Dict.{Dict}
use derico_sandbox.Config.Mounts.{Mount}
use derico_sandbox.Config.Project.{ProjectConfig, immutable_fingerprint, instance_name}
use derico_sandbox.Config.Size.{parse_size}
use derico_sandbox.Errors.{
  Error, IncusError, Result, attribute_error, crash, disappeared_before_start, disk_too_small, err,
  incus_error, missing_image, not_deleted, ok,
}
use derico_sandbox.FilePath.{FilePath}
use derico_sandbox.Incus.Guest.{
  configure_git, in_guest, pin_allowlist, verify_guest, wait_for_agent, wait_for_mount,
}
use derico_sandbox.Incus.Devices.{add_devices}
use derico_sandbox.Incus.Mounts.{device_args, mount_device, workspace_prefix}
use derico_sandbox.Incus.Network.{apply_acl, attach_acl, delete_acl}
use derico_sandbox.Json.{Value, text}
use derico_sandbox.Prelude.{
  Bool, List, Option, String, [], false, if◌then◌else◌, leb, nat_Eq, none, not, select, some,
  string_Eq, suc, true, ℕ, ◌++◌, ◌<>◌, ◌==◌, ◌∷◌,
}
use derico_sandbox.Prelude.Decimal.{show}
use derico_sandbox.Prelude.Text.{or_none, strip}
use derico_sandbox.Security.Acl.{AclPolicy}
use derico_sandbox.Errors
use mathlib.Core.Option
use derico_sandbox.FilePath
use derico_sandbox.Incus.Client.{
  is_some, call, command, creds_volume, ensure_credentials_volume, image_exists, image_property,
  instance_exists, instance_status, instance_record,
}
use derico_sandbox.System.{
  Action, Event, Output, State, System, attempt, failed, lift, return, run, throw, throw_if, when,
  ◌>>=◌, ◌>>◌,
}

-- The status, unless it is `None`.
abbrev required : Option Value → IncusError → Result Value
required none raised = err (incus_error raised)
required (some v) raised = ok v

module _ (system : System) where
  abbrev disk_property : String
  disk_property = "user.sandboxsh.disk"

  -- The comparison of `_check_disk_fits`, of the size that the image is stamped with: a size that
  -- cannot be read is no reason to refuse.
  unfoldable pub disk_fits : String → String → Bool
  disk_fits wanted template = elim (parse_size wanted) [
    | err e ↦ true
    | ok w ↦ elim (parse_size template) [ err e ↦ true | ok t ↦ leb t w ]
  ]

  unfoldable pub refuse_smaller : ProjectConfig → Option String → Action (Unit {0})
  refuse_smaller config none = return tt
  refuse_smaller config (some t) =
      throw_if (not (disk_fits config.resources.disk t)) (incus_error disk_too_small)

  -- `_check_disk_fits`
  unfoldable pub check_disk_fits : ProjectConfig → Action (Unit {0})
  check_disk_fits config = do
    template ← image_property system config.image disk_property
    refuse_smaller config (or_none template)

  unfoldable pub init_argv : ProjectConfig → String → List String
  init_argv config instance_ =
      "init"
      ∷ config.image
      ∷ instance_
      ∷ "--vm"
      ∷ "--config"
      ∷ ("limits.cpu=" <> show config.resources.cpus)
      ∷ "--config"
      ∷ ("limits.memory=" <> config.resources.memory)
      ∷ "--config"
      ∷ "security.secureboot=true"
      ∷ "--config"
      ∷ ("user.sandboxsh.config=" <> FilePath.render config.path)
      ∷ "--config"
      ∷ ("user.sandboxsh.name=" <> config.name)
      ∷ "--config"
      ∷ ("user.sandboxsh.immutable=" <> immutable_fingerprint system.platform config)
      ∷ "--device"
      ∷ ("root,size=" <> config.resources.disk)
      ∷ []

  abbrev pub start_argv : String → List String
  start_argv instance_ = "start" ∷ instance_ ∷ []

  -- What `create_instance` does in the guest once it runs.
  unfoldable pub set_up_guest : ProjectConfig → String → AclPolicy → Action (Unit {0})
  set_up_guest config instance_ policy = do
    wait_for_agent system instance_
    status ←
        command system (in_guest instance_ ("cloud-init" ∷ "status" ∷ "--wait" ∷ [])) false none
    pin_allowlist system policy instance_
    when config.agent_credentials (wait_for_mount system instance_ "/agent-creds")
    call system (
        in_guest instance_
          ("/usr/local/sbin/sandboxsh-instance-init" ∷ show system.uid ∷ show system.gid ∷ []))
    configure_git system instance_
    verify_guest system instance_

  unfoldable pub launch : ProjectConfig → String → AclPolicy → Action AclPolicy
  launch config instance_ policy = do
    call system (start_argv instance_)
    set_up_guest config instance_ policy
    return policy

  -- The `try` of `create_instance`.
  unfoldable pub build_instance : ProjectConfig → String → Action AclPolicy
  build_instance config instance_ = do
    add_devices system config instance_
    policy ← apply_acl system config
    attach_acl system config instance_
    launch config instance_ policy

  abbrev pub delete_argv : String → List String
  delete_argv instance_ = "delete" ∷ instance_ ∷ "--force" ∷ []

  -- Its handler.
  unfoldable pub discard_instance : ProjectConfig → String → Error → Action AclPolicy
  discard_instance config instance_ raised = do
    r ← command system (delete_argv instance_) false none
    attempt (delete_acl system config) (λ cleanup. return tt)
    throw raised

  -- The image is there, and its disk fits.
  unfoldable pub check_image : ProjectConfig → Action (Unit {0})
  check_image config = do
    there ← image_exists system config.image
    throw_if (not there) (incus_error missing_image)
    check_disk_fits config

  -- `Incus.create_instance`
  unfoldable pub create_instance : ProjectConfig → Action AclPolicy
  create_instance config = do
    check_image config
    instance_ ← lift (instance_name system.platform config)
    call system (init_argv config instance_)
    attempt (build_instance config instance_) (discard_instance config instance_)

  -- `status.lower() == wanted`
  abbrev status_is : String → Value → Result Bool
  status_is wanted (text s) = ok (system.lower s == wanted)
  status_is wanted v = err (crash attribute_error)

  -- Whether the VM runs that `start` finds.
  unfoldable pub runs : String → Action Bool
  runs instance_ = do
    status ← instance_status system instance_
    value ← lift (required status (disappeared_before_start instance_))
    lift (status_is "running" value)

  -- `Incus.start`
  unfoldable pub start : ProjectConfig → Action (Unit {0})
  start config = do
    instance_ ← lift (instance_name system.platform config)
    running ← runs instance_
    when (not running) (call system (start_argv instance_))
    wait_for_agent system instance_

  -- `Incus.stop`
  unfoldable pub stop : ProjectConfig → Action (Unit {0})
  stop config = do
    instance_ ← lift (instance_name system.platform config)
    status ← instance_status system instance_
    let halt = λ (v : Value). lift (status_is "stopped" v) >>= λ stopped.
        when (not stopped) (call system ("stop" ∷ instance_ ∷ "--force" ∷ []))
    elim status [ none ↦ return tt | some v ↦ halt v ]

  abbrev remove_instance : String → Action (Unit {0})
  remove_instance instance_ = do
    call system (delete_argv instance_)
    still ← instance_exists system instance_
    throw_if still (incus_error (not_deleted instance_))

  -- `Incus.destroy`
  unfoldable pub destroy : ProjectConfig → Action (Unit {0})
  destroy config = do
    instance_ ← lift (instance_name system.platform config)
    there ← instance_exists system instance_
    when there (remove_instance instance_)
    delete_acl system config

  unfoldable pub held_address : String → Option (Dict String Value) → Action (Option String)
  held_address instance_ none = return none
  held_address instance_ (some interfaces) = do
    hwaddr ← command system ("config" ∷ "get" ∷ instance_ ∷ "volatile.eth0.hwaddr" ∷ []) false none
    lift (address_among system (system.lower (strip hwaddr.stdout)) interfaces)

  -- `Incus.guest_ip`: the callers test it for truth and show it, so a value that is false is `none`.
  unfoldable pub guest_ip : ProjectConfig → Action (Option String)
  guest_ip config = do
    instance_ ← lift (instance_name system.platform config)
    entry ← instance_record system instance_
    interfaces ← lift (interfaces_in system entry)
    held_address instance_ interfaces
