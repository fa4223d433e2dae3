-- ===== src/Security/Acl.antt =====
-- security.py: `AclPolicy` and `build_acl_policy`.
pub mod Groups
pub mod Destinations
pub mod Rules
pub mod Egress
use derico_sandbox.Config.Firewall.{FirewallEntry}
use derico_sandbox.Config.Project.{ProjectConfig, guest_ports, instance_name}
use derico_sandbox.Errors.{
  Result, err, is_handled, ok, open_network_blocked, security_error, ◌>>=◌, ◌>>◌,
}
use derico_sandbox.Host.{Host}
use derico_sandbox.Platform.{Platform}
use derico_sandbox.Prelude.{
  Bool, List, Option, String, [], false, if◌then◌else◌, insert, ltb, map, nat_Eq, nat_eq, string_Eq,
  true, ℕ, ◌&&◌, ◌++◌, ◌<>◌, ◌==◌, ◌∷◌,
}
use derico_sandbox.Prelude.Decimal.{show}
use derico_sandbox.Prelude.Dict.{Dict, put}
use derico_sandbox.Prelude.Sort.{sorted}
use derico_sandbox.Prelude.Text.{join, str_le, or_none}
use derico_sandbox.Security.Endpoints.{EndpointsFile, default_endpoints, host_endpoints}
use derico_sandbox.Security.Hosts.{Lookup, resolve_host, validate_all}

-- One item of `grouped`: the addresses that are open at these ports.
pub record Group : Type 0 where
  pub protocol : String
  pub ports : List ℕ
  pub addresses : List String

-- A rule of the document; every rule is `allow` and `enabled`.
pub data Rule : Type 0 where
  allow_all : Rule
  -- destination, protocol and destination port
  allow_egress : String → String → String → Rule
  -- destination port, and the source where it is known
  allow_ingress : String → Option String → Rule

pub record AclPolicy : Type 0 where
  pub description : String
  pub ingress : List Rule
  pub egress : List Rule
  pub resolutions : Dict String (List String)
  pub unresolved_defaults : List String

-- The locals of the two loops.
pub record Gathered : Type 0 where
  pub grouped : List Group
  pub resolutions : Dict String (List String)
  pub unresolved : List String

abbrev pub nothing_gathered : Gathered
nothing_gathered = record { grouped = []; resolutions = []; unresolved = [] }

unfoldable pub ports_eq : List ℕ → List ℕ → Bool
ports_eq [] [] = true
ports_eq [] (q ∷ qs) = false
ports_eq (p ∷ ps) [] = false
ports_eq (p ∷ ps) (q ∷ qs) = nat_eq p q && ports_eq ps qs

-- `s.update(xs)` of a set
unfoldable pub update : List String → List String → List String
update s [] = s
update s (x ∷ xs) = update (insert x s) xs

-- `grouped[(protocol, ports)].update(addresses)`
unfoldable pub add_group : String → List ℕ → List String → List Group → List Group
add_group protocol ports addresses [] =
    record { protocol = protocol; ports = ports; addresses = update [] addresses } ∷ []
add_group protocol ports addresses (g ∷ gs) =
    let rest = add_group protocol ports addresses gs in
    if g.protocol == protocol && ports_eq g.ports ports
    then record g { addresses = update g.addresses addresses } ∷ gs
    else g ∷ rest

-- `resolutions[entry.host] = addresses` and the update of the group
unfoldable pub add_entry : FirewallEntry → List String → Gathered → Gathered
add_entry entry addresses s = record s {
  grouped = add_group entry.protocol entry.ports addresses s.grouped;
  resolutions = put s.resolutions entry.host addresses;
}

module _ (platform : Platform) (getaddrinfo : String → Lookup) where
  -- The end of both loops' bodies.
  unfoldable pub open_entry : FirewallEntry → List String → Gathered → Result Gathered
  open_entry entry addresses s = do
    validate_all platform entry.allow_private entry.host addresses
    ok (add_entry entry addresses s)

  -- The loop over the built-in and host-wide endpoints: one that does not resolve is left out.
  unfoldable pub gather_trusted : List FirewallEntry → Gathered → Result Gathered
  gather_trusted [] s = ok s
  gather_trusted (entry ∷ rest) s = elim (resolve_host platform getaddrinfo entry.host) [
    | ok addresses ↦ do s' ← open_entry entry addresses s; gather_trusted rest s'
    | err e ↦
        if is_handled e
        then gather_trusted rest (record s { unresolved = s.unresolved ++ entry.host ∷ [] })
        else err e
  ]

  -- The loop over the endpoints of the project.
  unfoldable pub gather_project : List FirewallEntry → Gathered → Result Gathered
  gather_project [] s = ok s
  gather_project (entry ∷ rest) s = do
    addresses ← resolve_host platform getaddrinfo entry.host
    s' ← open_entry entry addresses s
    gather_project rest s'

-- The order of tuples of ports, and of the keys of `grouped`.
unfoldable pub ports_le : List ℕ → List ℕ → Bool
ports_le [] qs = true
ports_le (p ∷ ps) [] = false
ports_le (p ∷ ps) (q ∷ qs) = let rest = ports_le ps qs in if nat_eq p q then rest else ltb p q

unfoldable pub group_le : Group → Group → Bool
group_le g h =
    if g.protocol == h.protocol then ports_le g.ports h.ports else str_le g.protocol h.protocol

unfoldable pub egress_rule : Group → Rule
egress_rule g =
    allow_egress (join "," (sorted str_le g.addresses)) g.protocol (join "," (map show g.ports))

unfoldable pub ingress_rules : List ℕ → Option String → List Rule
ingress_rules [] gateway = []
ingress_rules (p ∷ ps) gateway = allow_ingress (join "," (map show (p ∷ ps))) (or_none gateway) ∷ []

unfoldable pub closed_policy :
    Platform → ProjectConfig → Option String → Gathered → Result AclPolicy
closed_policy platform config gateway s = do
  name ← instance_name platform config
  ok (record {
    description = "Managed by sandboxsh for " <> name;
    ingress = ingress_rules (guest_ports config) gateway;
    egress = map egress_rule (sorted group_le s.grouped);
    resolutions = s.resolutions;
    unresolved_defaults = s.unresolved;
  })

unfoldable pub open_policy : ProjectConfig → AclPolicy
open_policy config = record {
  description = "sandboxsh open-network policy for " <> config.name;
  ingress = [];
  egress = allow_all ∷ [];
  resolutions = [];
  unresolved_defaults = [];
}

unfoldable pub build_acl_policy :
    Platform
    → Host
    → (String → Lookup)
    → EndpointsFile
    → ProjectConfig
    → Option String
    → Result AclPolicy
build_acl_policy platform host getaddrinfo file config gateway =
    let closed = do
      extra ← host_endpoints platform file
      trusted ← gather_trusted platform getaddrinfo (default_endpoints ++ extra) nothing_gathered
      all_ ← gather_project platform getaddrinfo config.firewall_allow trusted
      closed_policy platform config gateway all_
    in if config.firewall_enabled
      then closed
      else if host.allow_open_network
      then ok (open_policy config)
      else err (security_error open_network_blocked)
