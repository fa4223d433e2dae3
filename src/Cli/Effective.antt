-- ===== src/Cli/Effective.antt =====
-- cli.py: `plan`, the document of what a project's configuration comes to.
use derico_sandbox.Config.Mounts.{Mount}
use derico_sandbox.Config.Ports.{PortMapping}
use derico_sandbox.Config.Project.{ProjectConfig, Resources, instance_name, publishable}
use derico_sandbox.FilePath.{FilePath}
use derico_sandbox.Incus.Network.{policy_document, policy_for}
use derico_sandbox.Json.{Value, arr, array, bool, int, obj, object, text}
use derico_sandbox.Prelude.{Bool, String, [], is_empty, map, not, some, true, ◌&&◌, ◌∷◌}
use derico_sandbox.Prelude.Int.{pos}
use derico_sandbox.Security.Acl.{AclPolicy}
use derico_sandbox.FilePath
use derico_sandbox.System.{say, ◌>>=◌, Action, System, lift}

abbrev mount_plan : Mount → Value
mount_plan m = obj (
    object (
      ("source", text (FilePath.render m.source))
      ∷ ("target", text m.target)
      ∷ ("readonly", bool m.readonly)
      ∷ ("requiresHostApproval", bool (not m.inside_project))
      ∷ []))

abbrev port_plan : Bool → PortMapping → Value
port_plan enabled m = obj (
    object (
      ("guest", int (pos m.guest))
      ∷ ("host", int (pos m.host))
      ∷ ("tailnet", bool (m.tailnet && enabled))
      ∷ []))

abbrev limits_plan : Resources → Value
limits_plan r =
    obj
      (object (("cpus", int (pos r.cpus)) ∷ ("memory", text r.memory) ∷ ("disk", text r.disk) ∷ []))

-- The document of `plan_command`, with the instance's name and the policy.
abbrev effective_plan : ProjectConfig → String → AclPolicy → Value
effective_plan config instance_ policy = obj (
    object (
      ("config", text (FilePath.render config.path))
      ∷ ("instance", text instance_)
      ∷ ("image", text config.image)
      ∷ ("persistent", bool true)
      ∷ ("resources", limits_plan config.resources)
      ∷ ("mounts", arr (array (map mount_plan config.mounts)))
      ∷ ("ports", arr (array (map (port_plan config.tailscale.enabled) config.ports)))
      ∷ ("tailnetPublicationRequiresHostApproval", bool (not (is_empty (publishable config))))
      ∷ ("sharedAgentCredentials", bool config.agent_credentials)
      ∷ ("guestLocalOtherCredentials", bool true)
      ∷ ("customNetworkAuthorityRequiresHostApproval", bool (not (is_empty config.firewall_allow)))
      ∷ ("unresolvedBuiltInEndpoints", arr (array (map text policy.unresolved_defaults)))
      ∷ ("networkAcl", policy_document policy)
      ∷ []))

-- `plan_command`: `json.dumps` is the host's.
unfoldable pub plan_command : System → ProjectConfig → Action (Unit {0})
plan_command system config = do
  policy ← lift (policy_for system config (some "<resolved-at-runtime>"))
  instance_ ← lift (instance_name system.platform config)
  say (system.dumps (effective_plan config instance_ policy))
