-- ===== src/Security/Registry.antt =====
-- security.py: the registry of published host ports, shared by all projects of the host.
pub mod Holders
pub mod Contested
use derico_sandbox.FilePath.{name}
use derico_sandbox.Platform.{Platform}
use derico_sandbox.Config.Project.{instance_name, ProjectConfig, project_key}
use derico_sandbox.Errors.{
  Result, err, ok, port_taken, security_error, unreadable_registry, unsupported_registry, ◌>>=◌,
  ◌>>◌,
}
use derico_sandbox.Prelude.{
  List, Option, String, [], contains, if◌then◌else◌, is_empty, nat_Eq, none, not, select, some,
  string_Eq, ℕ, ◌&&◌, ◌==◌, ◌∷◌,
}
use derico_sandbox.Prelude.Decimal.{show}
use mathlib.Core.List.{foldl}
use derico_sandbox.Prelude.Dict.{Dict, get, put, remove, keys}
use derico_sandbox.Config.Ports.{PortMapping}

pub record Owner : Type 0 where
  pub project : String
  pub instance_name : String
  pub guest : ℕ

-- By port, written in decimal as in the file.
abbrev pub Registry : Type 0
Registry = Dict String Owner

pub data RegistryFile : Type 0 where
  missing unreadable unsupported : RegistryFile
  stored : Registry → RegistryFile

-- `_load_registry`
unfoldable pub load_registry : RegistryFile → Result Registry
load_registry missing = ok []
load_registry unreadable = err (security_error unreadable_registry)
load_registry unsupported = err (security_error unsupported_registry)
load_registry (stored ports) = ok ports

-- `owner is not None and owner.get("project") != project_key`
unfoldable pub foreign_owner : Registry → String → PortMapping → Option Owner
foreign_owner ports key mapping = elim (get ports (show mapping.host)) [
  | some owner ↦ if owner.project == key then none else some owner
  | none ↦ none
]

-- The loop that refuses the port of another project.
unfoldable pub check_owners : Registry → String → List PortMapping → Result (Unit {0})
check_owners ports key [] = ok tt
check_owners ports key (m ∷ ms) = elim (foreign_owner ports key m) [
  | some owner ↦ err (security_error (port_taken m.host owner.project owner.guest))
  | none ↦ check_owners ports key ms
]

-- `{str(mapping.host): mapping for mapping in mappings}`
unfoldable pub wanted_ports : List PortMapping → Dict String PortMapping → Dict String PortMapping
wanted_ports [] wanted = wanted
wanted_ports (m ∷ ms) wanted = wanted_ports ms (put wanted (show m.host) m)

-- The ports that the project holds and does not want any more.
unfoldable pub stale_ports : Registry → String → Dict String PortMapping → List String
stale_ports ports key wanted =
    select (λ e. e.1.project == key && not (contains (keys wanted) e.0)) (λ e. e.0) ports

unfoldable pub delete_ports : Registry → List String → Registry
delete_ports ports [] = ports
delete_ports ports (p ∷ ps) = delete_ports (remove ports p) ps

unfoldable pub claim_ports : Registry → String → String → Dict String PortMapping → Registry
claim_ports ports key instance_name [] = ports
claim_ports ports key instance_name ((p, m) ∷ wanted) =
    claim_ports
      (put ports p (record { project = key; instance_name = instance_name; guest = m.guest })) key
      instance_name wanted

-- The registry after a claim that is not refused.
unfoldable pub claimed : Registry → String → String → List PortMapping → Registry
claimed ports key instance_name mappings =
    let wanted = wanted_ports mappings [] in
    claim_ports (delete_ports ports (stale_ports ports key wanted)) key instance_name wanted

-- The VM's name, which is read once for each port that is claimed.
unfoldable pub claimant : Platform → ProjectConfig → List PortMapping → Result String
claimant platform config [] = ok ""
claimant platform config (m ∷ ms) = instance_name platform config

-- `claim_host_ports`
unfoldable pub claim_host_ports :
    Platform → ProjectConfig → List PortMapping → RegistryFile → Result (Unit {0}) × RegistryFile
claim_host_ports platform config mappings file =
    let key = project_key config in
    let outcome : Result Registry = do
      ports ← load_registry file
      check_owners ports key mappings
      name ← claimant platform config mappings
      ok (claimed ports key name mappings)
    in elim outcome [ ok ports ↦ (ok tt, stored ports) | err e ↦ (err e, file) ]

pub owned_ports : Registry → String → List String
owned_ports ports key = select (λ e. e.1.project == key) (λ e. e.0) ports

-- `release_host_ports`
unfoldable pub release_host_ports : ProjectConfig → RegistryFile → Result (Unit {0}) × RegistryFile
release_host_ports config file = elim (load_registry file) [
  | err e ↦ (err e, file)
  | ok ports ↦
      let owned = owned_ports ports (project_key config) in
      (ok tt, if is_empty owned then file else stored (delete_ports ports owned))
]
