-- ===== src/Cli/Ports.antt =====
-- cli.py: what the commands share: approvals, the host password, and the publication of ports.
pub mod Reported
pub mod Untouched
pub mod Held
pub mod Entitled
pub mod Quiet
use derico_sandbox.Config.Ports.{PortMapping}
use derico_sandbox.Config.Project.{ProjectConfig, publishable}
use derico_sandbox.Errors.{
  Error, cli_error, is_handled, no_vm_address, sudo_required, Result, err, ok,
}
use derico_sandbox.Incus.Instance.{guest_ip}
use derico_sandbox.Prelude.{
  Bool, List, String, [], false, if◌then◌else◌, is_empty, none, not, some, true, ◌&&◌, ◌<>◌, ◌∷◌,
  Option,
}
use derico_sandbox.Prelude.Decimal.{show}
use derico_sandbox.Prelude.Text.{join, split}
use derico_sandbox.Security.Acl.{AclPolicy}
use derico_sandbox.Security.Approvals.{ensure_project_approvals, revoke_project_approvals}
use derico_sandbox.Security.Publications.{approved_publications}
use derico_sandbox.Security.Registry.{claim_host_ports, release_host_ports}
use derico_sandbox.Errors
use derico_sandbox.Incus.Client.{is_some, verify_host_access}
use derico_sandbox.Host.{Host}
use mathlib.Core.Option
use derico_sandbox.Publish
use derico_sandbox.Publish.{Published}
use derico_sandbox.System.{
  say, say_all, Action, Output, State, System, attempt, emit, failed, lift, return, run, throw,
  throw_if, when, warned, echoed, ask, ◌>>=◌, ◌>>◌,
}

-- `except SandboxshError as exc: ...`; a crash passes through.
abbrev pub on_handled {ℓ} : {X : Type ℓ} → (Error → Action X) → Error → Action X
on_handled handler raised = if is_handled raised then handler raised else throw raised

unfoldable pub not_published : PortMapping → String
not_published m =
    "Not published: guest port "
    <> show m.guest
    <> " has no host approval for tailnet port "
    <> show m.host
    <> ". Run `sandboxsh approve` from an interactive host terminal to allow it."

unfoldable pub published_line : Published → String
published_line e = "published: " <> Publish.url e <> " -> guest port " <> show e.mapping.guest

-- `_report_unresolved_defaults`
unfoldable pub report_unresolved_defaults : AclPolicy → Action (Unit {0})
report_unresolved_defaults policy =
    when (not (is_empty policy.unresolved_defaults))
      (say ("Skipped unavailable built-in endpoint(s): " <> join ", " policy.unresolved_defaults))

abbrev pub required_ip : Option String → Result String
required_ip none = err (cli_error no_vm_address)
required_ip (some ip) = ok ip

module _ (system : System) where
  -- `ensure_project_approvals(config, prompt=True)`, on the ledger of the state
  unfoldable pub approve : ProjectConfig → Action (Unit {0})
  approve config s =
      let (outcome, file) =
        ensure_project_approvals system.host true system.platform config s.ledger in
      (outcome, record s { ledger = file })

  -- `revoke_project_approvals`
  unfoldable pub revoke : ProjectConfig → Action (Unit {0})
  revoke config s =
      let (outcome, file) = revoke_project_approvals config s.ledger in
      (outcome, record s { ledger = file })

  -- `approved_publications`
  unfoldable pub publications : ProjectConfig → Bool → Action (List PortMapping × List PortMapping)
  publications config prompt s =
      let (outcome, file) = approved_publications system.host prompt config s.ledger in
      (outcome, record s { ledger = file })

  -- `claim_host_ports`
  unfoldable pub claim : ProjectConfig → List PortMapping → Action (Unit {0})
  claim config mappings s =
      let (outcome, file) = claim_host_ports system.platform config mappings s.registry in
      (outcome, record s { registry = file })

  -- `release_host_ports`
  unfoldable pub release : ProjectConfig → Action (Unit {0})
  release config s =
      let (outcome, file) = release_host_ports config s.registry in
      (outcome, record s { registry = file })

  -- `_verify_and_approve`
  unfoldable pub verify_and_approve : ProjectConfig → Action (Unit {0})
  verify_and_approve config = do project_name ← verify_host_access system; approve config

  unfoldable pub demand_password : String → Action (Unit {0})
  demand_password purpose = do
    say ("Host password required to " <> purpose <> ".")
    r ← run system ("sudo" ∷ "-v" ∷ []) false none
    throw_if (failed r) (cli_error (sudo_required purpose))

  unfoldable pub password_for : String → Action (Unit {0})
  password_for purpose = do
    cached ← run system ("sudo" ∷ "-n" ∷ "true" ∷ []) false none
    when (failed cached && system.interactive) (demand_password purpose)

  -- `_prime_sudo`
  unfoldable pub prime_sudo : String → Action (Unit {0})
  prime_sudo purpose = when (is_some (system.which "sudo")) (password_for purpose)

  -- No listener stays, and no host port.
  pub withdraw_all : ProjectConfig → Action (List Published)
  withdraw_all config = do Publish.clear system config; release config; return []

  -- The ports that are approved, behind the registry and the VM's address.
  unfoldable pub publish_approved : ProjectConfig → List PortMapping → Action (List Published)
  publish_approved config approved = do
    claim config approved
    ip ← guest_ip system config
    guest ← lift (required_ip ip)
    bound ← Publish.address system config
    Publish.sync system config guest bound approved

  unfoldable pub publish_requested : ProjectConfig → Action (List Published)
  publish_requested config = do
    split ← publications config system.interactive
    say_all not_published split.1
    if is_empty split.0 then withdraw_all config else publish_approved config split.0

  -- `_publish`
  unfoldable pub publish_ports : ProjectConfig → Action (List Published)
  publish_ports config =
      let hint = do
        say "the host helper is missing, so declared ports stay reachable only at the VM address."
        return []
      in if is_empty (publishable config)
        then withdraw_all config
        else if Publish.helper_available system
        then publish_requested config
        else hint

  -- `_publish_and_report`
  unfoldable pub publish_and_report : ProjectConfig → Action (Unit {0})
  publish_and_report config = do
    endpoints ←
        attempt (publish_ports config)
          (on_handled (λ raised. emit (warned "Ports were not published" raised) >> return []))
    say_all published_line endpoints

  -- `_withdraw`
  unfoldable pub withdraw : ProjectConfig → Action (Unit {0})
  withdraw config =
      attempt (Publish.clear system config)
        (on_handled (λ raised. emit (warned "Published ports were not withdrawn" raised)))
