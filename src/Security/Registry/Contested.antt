-- ===== src/Security/Registry/Contested.antt =====
-- When a claim of host ports succeeds.
use mathlib.Core.Option
use derico_sandbox.Config.Ports.{PortMapping}
use derico_sandbox.Config.Project.{ProjectConfig, instance_name, project_key}
use derico_sandbox.Errors.{ok}
use derico_sandbox.Platform.{Platform}
use derico_sandbox.Prelude.{
  All, Bool-cases, List, Option-cases, String, [], arith, eq_iff, inl, inr, none, refl, some,
  string_Eq, sym, ◌==◌, ◌↔◌, ◌∙◌, ◌∷◌, ◌≡◌, nat_Eq,
}
use derico_sandbox.Prelude.Decimal.{show}
use derico_sandbox.Prelude.Dict.{get}
use derico_sandbox.Security.Registry.{
  Registry, RegistryFile, check_owners, claim_host_ports, claimant, foreign_owner, load_registry,
}
use derico_sandbox.Security.Registry.Holders.{check_owners_sound, claim_host_ports-cases, holder}

-- Whoever holds the port is the project with this key.
abbrev pub IsFree : Registry → String → String → Type 0
IsFree ports key port = (p : String) → holder ports port ≡ some p → p ≡ key

foreign_owner-IsFree :
    (ports : Registry) (key : String) (m : PortMapping)
    → (foreign_owner ports key m ≡ none) ↔ IsFree ports key (show m.host)
unfolding foreign_owner
foreign_owner-IsFree ports key m = elim (Option-cases (get ports (show m.host))) [
  | inl unheld ↦ rw (foreign_owner, unheld) (λ _ p held. cc, λ _. refl)
  | inr (o, found) ↦
      rw (foreign_owner, found)
        (elim (Bool-cases (o.project == key)) [
          | inl own ↦ rw own (
            λ _ p held. sym (Option.some-injective _ _ held) ∙ (eq_iff o.project key).0 own,
            λ _. refl,
          )
          | inr foreign ↦ rw foreign (
            λ h. cc,
            λ free. absurd (ground (arith, (eq_iff o.project key).1 (free o.project refl))),
          )
        ])
]

check_owners_iff :
    (ports : Registry) (key : String) (ms : List PortMapping)
    → (check_owners ports key ms ≡ ok tt) ↔ All (λ m. IsFree ports key (show m.host)) ms
unfolding check_owners
check_owners_iff ports key [] = (λ h. tt, λ h. refl)
check_owners_iff ports key (m ∷ ms) = (
  λ h.
      let free = check_owners_sound ports key (m ∷ ms) h in
      (
        (foreign_owner-IsFree ports key m).0 free.0,
        (check_owners_iff ports key ms).0 (ground (arith, free.0)),
      ),
  λ h.
      ground
        (arith, (foreign_owner-IsFree ports key m).1 h.0, (check_owners_iff ports key ms).1 h.1),
)

succeeds :
    (platform : Platform) (config : ProjectConfig) (ms : List PortMapping) (file : RegistryFile)
    (ports : Registry) (name : String)
    → load_registry file ≡ ok ports
    → instance_name platform config ≡ ok name
    → check_owners ports (project_key config) ms ≡ ok tt
    → (claim_host_ports platform config ms file).0 ≡ ok tt
unfolding claim_host_ports claimant
succeeds platform config [] file ports name read named pass = ground arith
succeeds platform config (m ∷ ms) file ports name read named pass = ground arith

-- Where the VM has a name, a claim on a registry that can be read succeeds exactly when no port that it
-- asks for is held by another project.
pub claim_host_ports_iff :
    (platform : Platform) (config : ProjectConfig) (ms : List PortMapping) (file : RegistryFile)
    (ports : Registry) (name : String)
    → load_registry file ≡ ok ports
    → instance_name platform config ≡ ok name
    → ((claim_host_ports platform config ms file).0 ≡ ok tt)
      ↔ All (λ m. IsFree ports (project_key config) (show m.host)) ms
unfolding claim_host_ports claimant
claim_host_ports_iff platform config ms file ports name read named = (
  λ h.
      (check_owners_iff ports (project_key config) ms).0
        (claim_host_ports-cases platform config ms file ports read h).0,
  λ free.
      succeeds platform config ms file ports name read named
        ((check_owners_iff ports (project_key config) ms).1 free),
)
