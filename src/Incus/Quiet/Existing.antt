-- ===== src/Incus/Quiet/Existing.antt =====
-- The queries of the client and its changes to a VM that exists, which start and delete nothing.
use derico_sandbox.Config.Project.{ProjectConfig}
use derico_sandbox.Errors.{Error}
use derico_sandbox.Incus.Client.{
  decoded, instance_exists, instance_record, instance_status, reported, server_version,
  verify_acl_enforcement, verify_host_access,
}
use derico_sandbox.Incus.Instance.{guest_ip, held_address}
use derico_sandbox.Incus.Mounts.{
  assert_immutable_config, attach_device, attach_devices, device_command, legacy_fingerprint,
  remove_devices, sync_mounts, bring_device, field_text, remove_device,
}
use derico_sandbox.Incus.Quiet.{is_quiet}
use derico_sandbox.Json.{Value}
use derico_sandbox.Prelude.{List, Option, String, [], none, some, ◌∷◌, if◌then◌else◌}
use derico_sandbox.Prelude.Dict.{Dict}
use derico_sandbox.System.{System, return}
use derico_sandbox.System.Effects.{Only, effects, >>=-Only}

module _ (system : System) where
  decoded-Only : (raised : Error) (o : Option Value) → Only is_quiet (decoded system raised o)
  decoded-Only raised none = search effects
  decoded-Only raised (some v) = search effects

  reported-Only : (o : Option Value) → Only is_quiet (reported system o)
  reported-Only none = search effects
  reported-Only (some v) = search effects

  pub server_version-Only : Only is_quiet (server_version system)
  unfolding server_version
  server_version-Only = search (effects, reported-Only)

  pub verify_host_access-Only : Only is_quiet (verify_host_access system)
  unfolding verify_host_access verify_acl_enforcement
  verify_host_access-Only = search (effects, decoded-Only, server_version-Only) depth 24

  instance_record-Only : (instance_ : String) → Only is_quiet (instance_record system instance_)
  unfolding instance_record
  instance_record-Only instance_ = search (effects, decoded-Only) depth 12

  pub instance_exists-Only : (instance_ : String) → Only is_quiet (instance_exists system instance_)
  unfolding instance_exists
  instance_exists-Only instance_ = search (effects, instance_record-Only)

  pub instance_status-Only : (instance_ : String) → Only is_quiet (instance_status system instance_)
  unfolding instance_status
  instance_status-Only instance_ = search (effects, instance_record-Only)

  pub assert_immutable_config-Only :
      (config : ProjectConfig) → Only is_quiet (assert_immutable_config system config)
  unfolding assert_immutable_config legacy_fingerprint
  assert_immutable_config-Only config = search (effects, instance_record-Only) depth 16

  remove_device-Only :
      (instance_ device : String)
      → Only is_quiet (device_command system instance_ "remove" device [])
  unfolding device_command
  remove_device-Only instance_ device = search effects

  add_device-Only :
      (instance_ device : String) (args : List String)
      → Only is_quiet (device_command system instance_ "add" device args)
  unfolding device_command
  add_device-Only instance_ device args = search effects

  remove_one-Only :
      (instance_ : String) (existing : Dict String Value) (device : String)
      → Only is_quiet (remove_device system instance_ existing device)
  unfolding remove_device
  remove_one-Only instance_ existing device = search (effects, remove_device-Only)

  remove_devices-Only :
      (instance_ : String) (existing : Dict String Value) (names : List String)
      → Only is_quiet (remove_devices system instance_ existing names)
  unfolding remove_devices
  remove_devices-Only instance_ existing [] = search effects
  remove_devices-Only instance_ existing (device ∷ rest) =
      >>=-Only is_quiet (remove_device system instance_ existing device) _
        (remove_one-Only instance_ existing device)
        (λ path.
          >>=-Only is_quiet (remove_devices system instance_ existing rest)
            (λ paths. return (path ∷ paths)) (remove_devices-Only instance_ existing rest)
            (λ paths. search effects))

  attach_device-Only :
      (instance_ device : String) (wanted : Dict String String)
      (current : Option (Dict String Value))
      → Only is_quiet (attach_device system instance_ device wanted current)
  unfolding attach_device
  attach_device-Only instance_ device wanted none = search (effects, add_device-Only)
  attach_device-Only instance_ device wanted (some d) =
      search (effects, add_device-Only, remove_device-Only) depth 12

  bring_device-Only :
      (instance_ : String) (existing : Dict String Value) (device : String)
      (wanted : Dict String String)
      → Only is_quiet (bring_device system instance_ existing device wanted)
  unfolding bring_device
  bring_device-Only instance_ existing device wanted = search (effects, attach_device-Only)

  attach_devices-Only :
      (instance_ : String) (existing : Dict String Value)
      (desired : Dict String (Dict String String))
      → Only is_quiet (attach_devices system instance_ existing desired)
  unfolding attach_devices
  attach_devices-Only instance_ existing [] = search effects
  attach_devices-Only instance_ existing ((device, wanted) ∷ rest) =
      >>=-Only is_quiet (bring_device system instance_ existing device wanted) _
        (bring_device-Only instance_ existing device wanted)
        (λ attached.
          >>=-Only is_quiet (attach_devices system instance_ existing rest)
            (λ paths. return (if attached then field_text wanted "path" ∷ paths else paths))
            (attach_devices-Only instance_ existing rest) (λ paths. search effects))

  pub sync_mounts-Only : (config : ProjectConfig) → Only is_quiet (sync_mounts system config)
  unfolding sync_mounts
  sync_mounts-Only config =
      search (effects, instance_record-Only, remove_devices-Only, attach_devices-Only) depth 16

  found_ip-Only :
      (instance_ : String) (o : Option (Dict String Value))
      → Only is_quiet (held_address system instance_ o)
  unfolding held_address
  found_ip-Only instance_ none = search effects
  found_ip-Only instance_ (some d) = search effects

  pub guest_ip-Only : (config : ProjectConfig) → Only is_quiet (guest_ip system config)
  unfolding guest_ip
  guest_ip-Only config = search (effects, instance_record-Only, found_ip-Only) depth 12
