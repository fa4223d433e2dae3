-- ===== src/Incus/Quiet.antt =====
-- The commands of the client that neither start, create, rename nor delete a VM, and take no ACL away.
pub mod Existing
use derico_sandbox.Errors.{Error, command_timeout, incus_error, wait_timed_out}
use derico_sandbox.Config.Mounts.{Mount}
use derico_sandbox.Config.Project.{ProjectConfig}
use derico_sandbox.FilePath.{FilePath}
use derico_sandbox.Incus.Client.{
  ensure_credentials_volume, image_exists, image_property, volume_exists,
}
use derico_sandbox.Incus.Devices.{
  add_credentials, add_devices, add_instructions, add_mounts, add_skills, add_mount, add_skill,
}
use derico_sandbox.Incus.Instance.{check_disk_fits, set_up_guest, refuse_smaller, check_image}
use derico_sandbox.Incus.Network.{
  bridge_gateway, bridge_gateway_from_kernel, default_network, set_nic, gateway_or_kernel,
  set_nic_key, create_acl, prepare_policy,
}
use derico_sandbox.Prelude.Dict.{Dict}
use derico_sandbox.Security.Acl.{AclPolicy}
use mathlib.Core.Option
use derico_sandbox.Incus.Guest.{
  verify_guest, configure_git, copy_git_settings, guest_probe, pin_allowlist, wait_for_agent,
  wait_for_guest_command, wait_for_mount, wait_loop, not_yet, copy_git_setting, pause,
}
use derico_sandbox.Prelude.{
  Bool, List, Option, String, [], contains, get_elem?, nat_Eq, not, refl, string_Eq, true, ℕ, ◌&&◌,
  ◌==◌, ◌∷◌, none, some, suc, zero, leb, ◌-◌,
}
use derico_sandbox.System.{Event, System, now, ran, return, throw}
use derico_sandbox.System.Effects.{
  Only, effects, >>=-Only, if-Only, now-Only, return-Only, throw-Only,
}

abbrev pub word : ℕ → List String → String
word n args = Option.get_or (get_elem? args n) ""

-- The words that `Incus.command` and `_admin_command` put in front.
abbrev pub is_incus : List String → Bool
is_incus args = word 1 args == "--force-local" && word 0 args == "incus"

abbrev pub is_admin_incus : List String → Bool
is_admin_incus args = word 1 args == "incus" && word 0 args == "sudo"

-- None of `incus … init`, `copy`, `rename`, `start` or `delete`, `sudo incus … query -X DELETE`, and `incus … config device unset`
abbrev is_quiet_command : List String → Bool
is_quiet_command args =
    not (is_incus args && word 4 args == "start")
    && not (is_incus args && contains ("init" ∷ "copy" ∷ "rename" ∷ "delete" ∷ []) (word 4 args))
    && not (is_admin_incus args && word 5 args == "DELETE")
    && not (
        is_incus args
        && word 4 args == "config"
        && word 5 args == "device"
        && word 6 args == "unset")

abbrev pub is_quiet : Event → Bool
is_quiet (ran args reply) = is_quiet_command args
is_quiet _ = true

-- No start of a VM.
abbrev pub starts_none : Event → Bool
starts_none (ran args reply) = not (is_incus args && word 4 args == "start")
starts_none _ = true

module _ (system : System) where
  image_exists-Only : (image : String) → Only is_quiet (image_exists system image)
  unfolding image_exists
  image_exists-Only image = search effects

  image_property-Only :
      (image property : String) → Only is_quiet (image_property system image property)
  unfolding image_property
  image_property-Only image property = search effects

  refuse_smaller-Only :
      (config : ProjectConfig) (template : Option String)
      → Only is_quiet (refuse_smaller system config template)
  unfolding refuse_smaller
  refuse_smaller-Only config none = search effects
  refuse_smaller-Only config (some t) = search effects

  check_disk_fits-Only : (config : ProjectConfig) → Only is_quiet (check_disk_fits system config)
  unfolding check_disk_fits
  check_disk_fits-Only config = search (effects, image_property-Only, refuse_smaller-Only)

  pub check_image-Only : (config : ProjectConfig) → Only is_quiet (check_image system config)
  unfolding check_image
  check_image-Only config = search (effects, image_exists-Only, check_disk_fits-Only)

  add_mount-Only :
      (instance_ : String) (index : ℕ) (m : Mount)
      → Only is_quiet (add_mount system instance_ index m)
  unfolding add_mount
  add_mount-Only instance_ index m = search effects

  add_mounts-Only :
      (instance_ : String) (index : ℕ) (mounts : List Mount)
      → Only is_quiet (add_mounts system instance_ index mounts)
  unfolding add_mounts
  add_mounts-Only instance_ index [] = search effects
  add_mounts-Only instance_ index (m ∷ ms) =
      >>=-Only is_quiet (add_mount system instance_ index m) _ (add_mount-Only instance_ index m)
        (λ _. add_mounts-Only instance_ (suc index) ms)

  add_skill-Only :
      (instance_ source : String) (skills : FilePath)
      → Only is_quiet (add_skill system instance_ source skills)
  unfolding add_skill
  add_skill-Only instance_ source skills = search effects

  add_skills-Only :
      (instance_ : String) (skills : List (String × FilePath))
      → Only is_quiet (add_skills system instance_ skills)
  unfolding add_skills
  add_skills-Only instance_ [] = search effects
  add_skills-Only instance_ ((source, path) ∷ rest) =
      >>=-Only is_quiet (add_skill system instance_ source path) _
        (add_skill-Only instance_ source path) (λ _. add_skills-Only instance_ rest)

  add_instructions-Only :
      (instance_ : String) (directory : Option FilePath)
      → Only is_quiet (add_instructions system instance_ directory)
  unfolding add_instructions
  add_instructions-Only instance_ none = search effects
  add_instructions-Only instance_ (some directory) = search effects

  add_credentials-Only : (instance_ : String) → Only is_quiet (add_credentials system instance_)
  unfolding add_credentials ensure_credentials_volume volume_exists
  add_credentials-Only instance_ = search effects

  pub add_devices-Only :
      (config : ProjectConfig) (instance_ : String)
      → Only is_quiet (add_devices system config instance_)
  unfolding add_devices
  add_devices-Only config instance_ =
      search
        (effects, add_mounts-Only, add_skills-Only, add_instructions-Only, add_credentials-Only)

  default_network-Only : Only is_quiet (default_network system)
  unfolding default_network
  default_network-Only = search effects

  bridge_gateway_from_kernel-Only :
      (network : String) → Only is_quiet (bridge_gateway_from_kernel system network)
  unfolding bridge_gateway_from_kernel
  bridge_gateway_from_kernel-Only network = search effects

  gateway_or_kernel-Only :
      (network : String) (configured : Option String)
      → Only is_quiet (gateway_or_kernel system network configured)
  unfolding gateway_or_kernel
  gateway_or_kernel-Only network none = bridge_gateway_from_kernel-Only network
  gateway_or_kernel-Only network (some address) = search effects

  bridge_gateway-Only : (network : String) → Only is_quiet (bridge_gateway system network)
  unfolding bridge_gateway
  bridge_gateway-Only network = search (effects, gateway_or_kernel-Only)

  pub prepare_policy-Only : (config : ProjectConfig) → Only is_quiet (prepare_policy system config)
  unfolding prepare_policy
  prepare_policy-Only config = search (effects, default_network-Only, bridge_gateway-Only)

  pub create_acl-Only : (acl : String) → Only is_quiet (create_acl system acl)
  unfolding create_acl
  create_acl-Only acl = search effects

  set_nic_key-Only :
      (target key value : String) → Only is_quiet (set_nic_key system target key value)
  unfolding set_nic_key
  set_nic_key-Only target key value = search effects

  pub set_nic-Only :
      (target : String) (settings : Dict String String)
      → Only is_quiet (set_nic system target settings)
  unfolding set_nic
  set_nic-Only target [] = search effects
  set_nic-Only target ((key, value) ∷ rest) =
      >>=-Only is_quiet (set_nic_key system target key value) _ (set_nic_key-Only target key value)
        (λ _. set_nic-Only target rest)

  not_yet-Only : (raised : Error) → Only is_quiet (not_yet system raised)
  not_yet-Only (command_timeout args) = search effects
  not_yet-Only raised = search effects

  guest_probe-Only :
      (instance_ : String) (args : List String) (remaining : ℕ)
      → Only is_quiet (guest_probe system instance_ args remaining)
  unfolding guest_probe
  guest_probe-Only instance_ args remaining = search (effects, not_yet-Only)

  pause-Only :
      (deadline : ℕ) (description : String) (waiting : Bool)
      → Only is_quiet (pause system deadline description waiting)
  unfolding pause
  pause-Only deadline description waiting = search effects

  pub wait_loop-Only :
      (fuel : ℕ) (instance_ : String) (args : List String) (deadline : ℕ) (description : String)
      (waiting : Bool)
      → Only is_quiet (wait_loop system fuel instance_ args deadline description waiting)
  unfolding wait_loop
  wait_loop-Only zero instance_ args deadline description waiting = search effects
  wait_loop-Only (suc fuel) instance_ args deadline description waiting =
      let again =
        >>=-Only is_quiet (pause system deadline description waiting) _
          (pause-Only deadline description waiting)
          (λ _. wait_loop-Only fuel instance_ args deadline description true) in
      >>=-Only is_quiet (now system) _ (now-Only is_quiet system refl) (λ t.
        if-Only is_quiet (leb deadline t) _ _
          (throw-Only is_quiet (Unit {0}) (incus_error (wait_timed_out description)))
          (>>=-Only is_quiet (guest_probe system instance_ args (deadline - t)) _
            (guest_probe-Only instance_ args (deadline - t))
            (λ answered. if-Only is_quiet answered _ _ (return-Only is_quiet tt) again)))

  pub wait_for_agent-Only : (instance_ : String) → Only is_quiet (wait_for_agent system instance_)
  unfolding wait_for_agent wait_for_guest_command
  wait_for_agent-Only instance_ = search (effects, wait_loop-Only)

  pub wait_for_mount-Only :
      (instance_ path : String) → Only is_quiet (wait_for_mount system instance_ path)
  unfolding wait_for_mount wait_for_guest_command
  wait_for_mount-Only instance_ path = search (effects, wait_loop-Only)

  pub pin_allowlist-Only :
      (policy : AclPolicy) (instance_ : String)
      → Only is_quiet (pin_allowlist system policy instance_)
  unfolding pin_allowlist
  pin_allowlist-Only policy instance_ = search effects

  copy_git_setting-Only :
      (instance_ key : String) → Only is_quiet (copy_git_setting system instance_ key)
  unfolding copy_git_setting
  copy_git_setting-Only instance_ key = search effects

  copy_git_settings-Only :
      (instance_ : String) (settings : List String)
      → Only is_quiet (copy_git_settings system instance_ settings)
  unfolding copy_git_settings
  copy_git_settings-Only instance_ [] = search effects
  copy_git_settings-Only instance_ (key ∷ rest) =
      >>=-Only is_quiet (copy_git_setting system instance_ key) _
        (copy_git_setting-Only instance_ key) (λ _. copy_git_settings-Only instance_ rest)

  verify_guest-Only : (instance_ : String) → Only is_quiet (verify_guest system instance_)
  unfolding verify_guest
  verify_guest-Only instance_ = search effects

  pub set_up_guest-Only :
      (config : ProjectConfig) (instance_ : String) (policy : AclPolicy)
      → Only is_quiet (set_up_guest system config instance_ policy)
  unfolding set_up_guest configure_git
  set_up_guest-Only config instance_ policy =
      search
        (
          effects, wait_for_agent-Only, wait_for_mount-Only, pin_allowlist-Only,
          copy_git_settings-Only, verify_guest-Only,
        )
        depth 12
