-- ===== src/Cli/Commands.antt =====
-- cli.py: the other commands over a project: `approve`, `status`, `url`, `publish`, `unpublish`,
-- `refresh-firewall`, `credentials reset` and `doctor`.
use derico_sandbox.Cli.Lifecycle.{confirmed, is_running}
use derico_sandbox.Cli.Ports.{
  approve, prime_sudo, publications, publish_and_report, publish_ports, release,
  report_unresolved_defaults, revoke, verify_and_approve,
}
use derico_sandbox.Config.Ports.{PortMapping}
use derico_sandbox.Config.Project.{ProjectConfig, guest_ports, instance_name, publishable}
use derico_sandbox.Errors.{
  cannot_reset, cli_error, is_handled, no_helper, no_vm_address, not_running, publish_error,
  reset_cancelled, undeclared_port,
}
use derico_sandbox.FilePath.{FilePath}
use derico_sandbox.Incus.Address.{shown_address}
use derico_sandbox.Incus.Client.{
  command, creds_volume, instance_status, verify_host_access, volume_exists,
}
use derico_sandbox.Incus.Guest.{pin_allowlist}
use derico_sandbox.Incus.Instance.{guest_ip}
use derico_sandbox.Incus.Network.{apply_acl, attach_acl}
use derico_sandbox.Prelude.{
  Bool, List, Option, String, [], contains, false, find?, if◌then◌else◌, is_empty, map, nat_Eq,
  none, not, some, string_Eq, ℕ, ◌&&◌, ◌++◌, ◌<>◌, ◌==◌, ◌∷◌,
}
use derico_sandbox.Prelude.Decimal.{show}
use derico_sandbox.Prelude.Sort.{sorted}
use derico_sandbox.Prelude.Text.{join, or_none, split, str_le, strip}
use mathlib.Core.Option
use derico_sandbox.FilePath
use derico_sandbox.Publish
use derico_sandbox.Publish.{Published, authority}
use derico_sandbox.System.{
  Action, System, attempt, failed, lift, return, throw, throw_if, when, ◌>>=◌, ◌>>◌, say, say_all,
}

unfoldable pub address_line : String × List String → String
address_line (host, addresses) = host <> ": " <> join ", " addresses

unfoldable pub endpoint_line : Published → String
endpoint_line e = Publish.url e <> " -> guest port " <> show e.mapping.guest

unfoldable pub approved_line : String → PortMapping → String
approved_line authority m =
    "tailnet:  http://" <> authority <> ":" <> show m.host <> " -> guest " <> show m.guest

unfoldable pub pending_line : PortMapping → String
pending_line m = "tailnet:  guest " <> show m.guest <> " awaiting `sandboxsh approve`"

unfoldable pub publication_lines : List PortMapping → List PortMapping → Option String → List String
publication_lines approved pending none = "tailnet:  unavailable" ∷ []
publication_lines approved pending (some name) =
    map (approved_line name) approved ++ map pending_line pending

unfoldable pub url_lines : Option String → List ℕ → List String
url_lines none ports = []
url_lines (some a) ports = map (λ port. "url:      http://" <> a <> ":" <> show port) ports

abbrev of_guest : ℕ → PortMapping → Bool
of_guest port m = m.guest == port

module _ (system : System) where
  -- `approve_command`
  unfoldable pub approve_command : ProjectConfig → Bool → Action (Unit {0})
  approve_command config revoke_all =
      let revoked =
        revoke system config >> say ("Revoked approvals for " <> FilePath.render config.path) in
      let approved =
        approve system config >> say "Requested mounts and network endpoints are approved." in
      if revoke_all then revoked else approved

  -- The `try` of `_publication_status`: the authority, or the line that tells why there is none.
  unfoldable pub tailnet_authority : ProjectConfig → Action (Option String)
  tailnet_authority config =
      let named = do
        bound ← Publish.address system config
        name ← Publish.hostname system
        return (some (Option.get_or (or_none name) bound))
      in attempt named (λ raised. if is_handled raised then return none else throw raised)

  -- `_publication_status`. (The text of the failure is left out.)
  unfoldable pub publication_status : ProjectConfig → Action (List String)
  publication_status config =
      let lines = do
        split ← publications system config false
        authority ← tailnet_authority config
        return (publication_lines split.0 split.1 authority)
      in if is_empty (publishable config)
        then return []
        else if Publish.helper_available system
        then lines
        else return ("tailnet:  helper not installed (see `sandboxsh doctor`)" ∷ [])

  -- What `status` tells of a VM that runs.
  unfoldable pub running_status : ProjectConfig → Action (Unit {0})
  running_status config = do
    ip ← guest_ip system config
    say ("address:  " <> Option.get_or ip "not assigned")
    say_all (λ line. line) (url_lines ip (guest_ports config))
    lines ← publication_status config
    say_all (λ line. line) lines

  -- `status_command`
  unfoldable pub status_command : ProjectConfig → Action (Unit {0})
  status_command config = do
    project_name ← verify_host_access system
    instance_ ← lift (instance_name system.platform config)
    status ← instance_status system instance_
    say ("config:   " <> FilePath.render config.path)
    say ("instance: " <> instance_)
    say ("status:   " <> Option.get_or (shown_address system status) "absent")
    say (
        "limits:   "
        <> show config.resources.cpus
        <> " CPU, "
        <> config.resources.memory
        <> " RAM, "
        <> config.resources.disk
        <> " disk")
    when (is_running status) (running_status config)

  -- `url_command`: the URL of a port that is published, else of the VM
  unfoldable pub vm_url : ProjectConfig → ℕ → Action (Unit {0})
  vm_url config port = do
    ip ← guest_ip system config
    elim ip [
      | none ↦ throw (cli_error no_vm_address)
      | some a ↦ say ("http://" <> a <> ":" <> show port)
    ]

  -- `context.publisher.hostname() or context.publisher.address(config)`
  unfoldable pub named_or_bound : ProjectConfig → Option String → Action String
  named_or_bound config (some name) = return name
  named_or_bound config none = Publish.address system config

  unfoldable pub published_url : ProjectConfig → PortMapping → Action (Unit {0})
  published_url config mapping = do
    name ← Publish.hostname system
    authority ← named_or_bound config (or_none name)
    say ("http://" <> authority <> ":" <> show mapping.host)

  unfoldable pub tailnet_url : ProjectConfig → ℕ → Action (Unit {0})
  tailnet_url config port = do
    split ← publications system config false
    elim (find? (of_guest port) split.0) [
      | some mapping ↦ published_url config mapping
      | none ↦ vm_url config port
    ]

  unfoldable pub url_command : ProjectConfig → ℕ → Bool → Action (Unit {0})
  url_command config port vm = do
    project_name ← verify_host_access system
    throw_if (not (contains (guest_ports config) port)) (cli_error (undeclared_port port))
    if not vm && not (is_empty (publishable config)) && Publish.helper_available system
        then tailnet_url config port
        else vm_url config port

  -- `publish_command`
  unfoldable pub publish_command : ProjectConfig → Action (Unit {0})
  publish_command config = do
    project_name ← verify_host_access system
    instance_ ← lift (instance_name system.platform config)
    status ← instance_status system instance_
    throw_if (not (is_running status)) (cli_error not_running)
    when (not (is_empty (publishable config)) && Publish.helper_available system)
        (prime_sudo system "publish ports on this host's tailnet")
    endpoints ← publish_ports system config
    if is_empty endpoints
        then say "Nothing is published for this project."
        else say_all endpoint_line endpoints

  -- `unpublish_command`
  unfoldable pub unpublish_command : ProjectConfig → Action (Unit {0})
  unpublish_command config = do
    throw_if (not (Publish.helper_available system)) (publish_error no_helper)
    prime_sudo system "withdraw this project's published ports"
    Publish.clear system config
    release system config
    instance_ ← lift (instance_name system.platform config)
    say ("Withdrew published ports for " <> instance_ <> ".")

  -- `refresh_firewall_command`
  unfoldable pub refresh_firewall_command : ProjectConfig → Action (Unit {0})
  refresh_firewall_command config = do
    verify_and_approve system config
    prime_sudo system "replace this project's host-enforced firewall"
    policy ← apply_acl system config
    report_unresolved_defaults policy
    instance_ ← lift (instance_name system.platform config)
    attach_acl system config instance_
    status ← instance_status system instance_
    let follow = do pin_allowlist system policy instance_; publish_and_report system config
    when (is_running status) follow
    say_all address_line
        (sorted (λ (a b : String × List String). str_le a.0 b.0) policy.resolutions)
    say "Host-enforced network ACL refreshed."

  abbrev delete_volume : Bool → Action (Unit {0})
  delete_volume sure = do
    confirmed system sure "Delete shared agent logins, settings, sessions, and packages?"
        (cli_error reset_cancelled)
    r ←
        command system ("storage" ∷ "volume" ∷ "delete" ∷ system.pool ∷ creds_volume ∷ []) false
          none
    throw_if (failed r) (
        cli_error (
          cannot_reset
            (if strip r.stderr == "" then "Incus rejected the deletion" else strip r.stderr)))
    say "Shared agent credential volume deleted."

  -- `credentials_reset_command`
  unfoldable pub credentials_reset_command : Bool → Action (Unit {0})
  credentials_reset_command sure = do
    project_name ← verify_host_access system
    there ← volume_exists system creds_volume
    if there then delete_volume sure else say "Shared agent credential volume is already absent."
