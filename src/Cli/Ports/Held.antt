-- ===== src/Cli/Ports/Held.antt =====
-- A claim that returns gives the project its host ports.
use derico_sandbox.Config.Ports.{PortMapping}
use derico_sandbox.Config.Project.{ProjectConfig, project_key}
use derico_sandbox.Errors.{Result, Result-cases, err, ok, Error}
use derico_sandbox.Prelude.{
  All, All-map_of, IsDistinct, List, [], arith, contains, distinct, eq_iff, inl, inr, nat_Eq, refl,
  some, string_Eq, true, ◌∷◌, ◌≡◌, ap, sym, ◌∙◌,
}
use derico_sandbox.Prelude.Decimal.{show}
use derico_sandbox.Prelude.Dict.{keys}
use derico_sandbox.Security.Registry.{Registry, RegistryFile, claim_host_ports, load_registry}
use derico_sandbox.Security.Registry.Holders.{holder, host_texts, claim_host_ports-ok}
use derico_sandbox.Security.Registry.{stored}
use derico_sandbox.Cli.Ports.{claim}
use derico_sandbox.System.{State, System}
use derico_sandbox.System.Leaves.{Returns}

-- The registry gives the host port to the project.
abbrev pub IsHeld : ProjectConfig → RegistryFile → PortMapping → Type 0
IsHeld config file m =
    (ports : Registry) × (load_registry file ≡ ok ports)
    × (holder ports (show m.host) ≡ some (project_key config))

abbrev pub HasDistinctPorts : RegistryFile → Type 0
HasDistinctPorts file = (ports : Registry) → load_registry file ≡ ok ports → IsDistinct (keys ports)

loaded_later : (f : RegistryFile) (ports : Registry) → f ≡ stored ports → load_registry f ≡ ok ports
unfolding load_registry
loaded_later f ports p = rw p

host-listed : (ms : List PortMapping) → All (λ m. contains (host_texts ms) (show m.host) ≡ true) ms
host-listed [] = tt
host-listed (m ∷ ms) = (
  ground (arith, eq_iff (show m.host) (show m.host)),
  All-map_of _ _ ms (λ (n : PortMapping) h. ground (arith, h)) (host-listed ms),
)

module _ (system : System) (config : ProjectConfig) where
  claim-unread :
      (ms : List PortMapping) (file : RegistryFile) (e : Error) (f : RegistryFile) (x : Unit {0})
      → load_registry file ≡ err e
      → claim_host_ports system.platform config ms file ≡ (ok x, f)
      → ⊥
  unfolding claim_host_ports
  claim-unread ms file e f x bad q = let r = rw (bad, claim_host_ports) at q in cc

  pub claim-IsHeld :
      (ms : List PortMapping) (s : State)
      → HasDistinctPorts s.registry
      → Returns
          (λ _ t. (t.ledger ≡ s.ledger) × All (IsHeld config t.registry) ms)
          (claim system config ms s)
  unfolding claim
  claim-IsHeld ms s distinct = held (claim_host_ports system.platform config ms s.registry) refl
    where
      held :
          (r : Result (Unit {0}) × RegistryFile)
          → claim_host_ports system.platform config ms s.registry ≡ r
          → Returns
              (λ _ t. (t.ledger ≡ s.ledger) × All (IsHeld config t.registry) ms)
              (r.0, record s { registry = r.1 })
      held (err e, f) q = tt
      held (ok x, f) q = elim (Result-cases (load_registry s.registry)) [
        | inl (ports, read) ↦
            let (later, left, law) =
              claim_host_ports-ok system.platform config ms s.registry ports read
                (distinct ports read) (ap (λ (r : Result (Unit {0}) × RegistryFile). r.0) q) in
            (
              refl,
              All-map_of _ _ ms
                  (λ (m : PortMapping) h. (
                    later,
                    loaded_later f later
                        (sym (ap (λ (r : Result (Unit {0}) × RegistryFile). r.1) q) ∙ left),
                    law (show m.host) ∙ rw h,
                  ))
                  (host-listed ms),
            )
        | inr (e, bad) ↦ absurd (claim-unread ms s.registry e f x bad q)
      ]
