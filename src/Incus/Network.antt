-- ===== src/Incus/Network.antt =====
-- incus.py: the bridge and the ACL of a project: `default_network`, `blocked_forwarding_remedy`,
-- `bridge_gateway`, `apply_acl`, `attach_acl`, `detach_acl` and `delete_acl`.
use derico_sandbox.Config.Project.{ProjectConfig, acl_name}
use derico_sandbox.Errors.{Result, incus_error, no_gateway, no_network, ok}
use derico_sandbox.Incus.Client.{
  already_exists, call, command, control_timeout, not_found, probe_error, setting,
}
use derico_sandbox.Json.{Value, arr, array, end, obj, object, text}
use derico_sandbox.Prelude.{
  Bool, List, Option, String, [], any, contains, false, if◌then◌else◌, is_empty, map, nat_Eq, none,
  not, some, string_Eq, suc, true, ℕ, ◌&&◌, ◌++◌, ◌-◌, ◌<>◌, ◌==◌, ◌||◌, ◌∷◌,
}
use derico_sandbox.Prelude.Decimal.{show}
use derico_sandbox.Prelude.Dict.{Dict}
use derico_sandbox.Prelude.Text.{ends_with, has_text, or_none, strip, take_chars}
use derico_sandbox.Security.Acl.{
  AclPolicy, Rule, allow_all, allow_egress, allow_ingress, build_acl_policy,
}
use derico_sandbox.Errors
use derico_sandbox.Incus.Client.{is_some}
use derico_sandbox.System.{Action, Output, System, failed, lift, return, run, throw_if, ◌>>=◌, ◌>>◌}

abbrev pub text_length : String → ℕ
text_length String.[] = 0
text_length (String.◌∷◌ c s) = suc (text_length s)

-- The lines behind which the bridge may forward.
unfoldable pub accepts_bridge : String → String → Bool
accepts_bridge network line =
    has_text (line <> " ") ("-i " <> network <> " ") && ends_with line "-j ACCEPT"

-- `fields[fields.index("inet") + 1:]`
unfoldable pub behind_inet : List String → List String
behind_inet [] = []
behind_inet (w ∷ ws) = let rest = behind_inet ws in if w == "inet" then ws else rest

abbrev source_field : Option String → Dict String Value
source_field none = []
source_field (some gateway) = ("source", text gateway) ∷ []

abbrev body_args : System → Option Value → List String
body_args system none = []
body_args system (some body) = "-d" ∷ system.dumps body ∷ []

-- `fallback or parsed`
abbrev or_else : Option String → Option String → Option String
or_else none parsed = parsed
or_else (some address) parsed = some address

-- The JSON document of a policy.
unfoldable pub rule_document : Rule → Value
rule_document allow_all = obj (object (("action", text "allow") ∷ ("state", text "enabled") ∷ []))
rule_document (allow_egress destination protocol ports) = obj (
    object (
      ("action", text "allow")
      ∷ ("state", text "enabled")
      ∷ ("description", text "sandboxsh resolved allowlist")
      ∷ ("destination", text destination)
      ∷ ("protocol", text protocol)
      ∷ ("destination_port", text ports)
      ∷ []))
rule_document (allow_ingress ports source) = obj (
    object (
      ("action", text "allow")
      ∷ ("state", text "enabled")
      ∷ ("description", text "host access to declared development ports")
      ∷ ("protocol", text "tcp")
      ∷ ("destination_port", text ports)
      ∷ source_field source))

unfoldable pub policy_document : AclPolicy → Value
policy_document policy = obj (
    object (
      ("description", text policy.description)
      ∷ ("config", obj end)
      ∷ ("ingress", arr (array (map rule_document policy.ingress)))
      ∷ ("egress", arr (array (map rule_document policy.egress)))
      ∷ []))

-- `settings` of `attach_acl`
unfoldable pub nic_settings : String → Dict String String
nic_settings acl =
    ("security.acls", acl)
    ∷ ("security.acls.default.ingress.action", "reject")
    ∷ ("security.acls.default.egress.action", "reject")
    ∷ ("security.acls.default.ingress.logged", "true")
    ∷ ("security.acls.default.egress.logged", "true")
    ∷ ("security.ipv4_filtering", "true")
    ∷ ("security.ipv6_filtering", "true")
    ∷ []

module _ (system : System) where
  -- `_host_acl_name`. (The user's id has at most 40 digits.)
  unfoldable pub host_acl_name : ProjectConfig → Result String
  host_acl_name config = Errors.◌>>=◌ (acl_name system.platform config) λ name.
      let prefix = "acl-u" <> show system.uid <> "-" in
      let digest = take_chars 8 (system.platform.sha256 name) in
      ok (
        prefix
        <> take_chars (63 - text_length prefix - text_length digest - 1) name
        <> "-"
        <> digest)

  -- `_admin_command`
  abbrev admin_command : List String → Bool → Action Output
  admin_command args check =
      run system ("sudo" ∷ "incus" ∷ "--force-local" ∷ args) check control_timeout

  abbrev pub acl_path : String → String
  acl_path acl = "/1.0/network-acls/" <> system.url_quote acl <> "?project=default"

  abbrev pub query_argv : String → List String → String → List String
  query_argv action body acl = "query" ∷ "-X" ∷ action ∷ (body ++ acl_path acl ∷ [])

  -- `_admin_acl_query`
  unfoldable pub admin_acl_query : String → String → Option Value → Bool → Action Output
  admin_acl_query action acl body check =
      admin_command (query_argv action (body_args system body) acl) check

  -- `Incus.default_network`
  unfoldable pub default_network : Action String
  default_network = do
    r ←
        command system ("profile" ∷ "device" ∷ "get" ∷ "default" ∷ "eth0" ∷ "network" ∷ []) false
          none
    throw_if (failed r || strip r.stdout == "") (incus_error no_network)
    return (strip r.stdout)

  abbrev remedy : Output → Option String
  remedy forward =
      some (if has_text forward.stdout "-j DOCKER-USER" then "DOCKER-USER" else "FORWARD")

  -- `Incus.blocked_forwarding_remedy`: the chain that the remedy names
  unfoldable pub blocked_forwarding_remedy : String → Action (Option String)
  blocked_forwarding_remedy network =
      let inspect = λ (forward : Output).
        run system ("sudo" ∷ "-n" ∷ "iptables" ∷ "-S" ∷ []) false none >>= λ existing. return (
          if not (failed existing) && any (accepts_bridge network) (system.lines existing.stdout)
          then none
          else remedy forward) in
      run system ("sudo" ∷ "-n" ∷ "iptables" ∷ "-S" ∷ "FORWARD" ∷ []) false none >>= λ forward.
      if failed forward
        || not (any (λ l. strip l == "-P FORWARD DROP") (system.lines forward.stdout))
      then return none
      else inspect forward

  -- The loop of `_bridge_gateway_from_kernel`: the line's address, if it has one.
  unfoldable pub line_address : List String → Option String
  line_address words = elim (behind_inet words) [ [] ↦ none | w ∷ ws ↦ system.interface_ip w ]

  unfoldable pub gateway_line : Option String → List (List String) → Option String
  gateway_line fallback [] = fallback
  gateway_line fallback (words ∷ rest) =
      let parsed = line_address words in
      let later = gateway_line (or_else (or_none fallback) parsed) rest in
      let skipped = gateway_line fallback rest in
      elim parsed [
        | none ↦ skipped
        | some address ↦ if contains words "global" then some address else later
      ]

  -- `_bridge_gateway_from_kernel`
  unfoldable pub bridge_gateway_from_kernel : String → Action (Option String)
  bridge_gateway_from_kernel network = do
    r ← run system ("ip" ∷ "-4" ∷ "-o" ∷ "addr" ∷ "show" ∷ "dev" ∷ network ∷ []) false none
    return (if failed r then none else gateway_line none (map system.words (system.lines r.stdout)))

  abbrev configured_gateway : Output → Option String
  configured_gateway r =
      let address = strip r.stdout in
      if failed r || contains ("" ∷ "none" ∷ []) address then none else system.interface_ip address

  unfoldable pub gateway_or_kernel : String → Option String → Action (Option String)
  gateway_or_kernel network (some address) = return (some address)
  gateway_or_kernel network none = bridge_gateway_from_kernel network

  -- `Incus.bridge_gateway`
  unfoldable pub bridge_gateway : String → Action (Option String)
  bridge_gateway network = do
    r ← command system ("network" ∷ "get" ∷ network ∷ "ipv4.address" ∷ []) false none
    gateway_or_kernel network (configured_gateway r)

  abbrev pub policy_for : ProjectConfig → Option String → Result AclPolicy
  policy_for config gateway =
      build_acl_policy system.platform system.host system.getaddrinfo system.endpoints config
        gateway

  -- What `apply_acl` does before it changes anything.
  unfoldable pub prepare_policy : ProjectConfig → Action AclPolicy
  prepare_policy config = do
    network ← default_network
    gateway ← bridge_gateway network
    throw_if (not (is_empty config.ports) && not (is_some gateway)) (incus_error no_gateway)
    lift (policy_for config gateway)

  unfoldable pub create_acl : String → Action (Unit {0})
  create_acl acl = do
    created ←
        admin_command ("--project" ∷ "default" ∷ "network" ∷ "acl" ∷ "create" ∷ acl ∷ []) false
    throw_if (failed created && not (already_exists system created))
        (probe_error ("create network ACL " <> acl) created)

  unfoldable pub write_acl : AclPolicy → String → Action AclPolicy
  write_acl policy acl = do
    create_acl acl
    r ← admin_acl_query "PUT" acl (some (policy_document policy)) true
    return policy

  -- `Incus.apply_acl`
  unfoldable pub apply_acl : ProjectConfig → Action AclPolicy
  apply_acl config = do
    policy ← prepare_policy config
    acl ← lift (host_acl_name config)
    write_acl policy acl

  unfoldable pub set_nic_key : String → String → String → Action (Unit {0})
  set_nic_key target key value =
      call system ("config" ∷ "device" ∷ "set" ∷ target ∷ "eth0" ∷ key ∷ value ∷ [])

  -- The loop of `attach_acl`.
  unfoldable pub set_nic : String → Dict String String → Action (Unit {0})
  set_nic target [] = return tt
  set_nic target ((key, value) ∷ rest) = set_nic_key target key value >> set_nic target rest

  unfoldable pub override_nic : String → String → Action Output
  override_nic target acl =
      command system
        ("config" ∷ "device" ∷ "override" ∷ target ∷ "eth0" ∷ map setting (nic_settings acl)) false
        none

  -- `Incus.attach_acl`, of the instance
  unfoldable pub attach_acl : ProjectConfig → String → Action (Unit {0})
  attach_acl config target = do
    acl ← lift (host_acl_name config)
    override ← override_nic target acl
    if failed override then set_nic target (nic_settings acl) else return tt

  -- `Incus.detach_acl`
  unfoldable pub detach_acl : String → Action (Unit {0})
  detach_acl instance_ = do
    r ←
        command system ("config" ∷ "device" ∷ "unset" ∷ instance_ ∷ "eth0" ∷ "security.acls" ∷ [])
          false none
    throw_if (failed r && not (not_found system r))
        (probe_error ("detach network ACL from " <> instance_) r)

  -- `Incus.delete_acl`
  unfoldable pub delete_acl : ProjectConfig → Action (Unit {0})
  delete_acl config = do
    acl ← lift (host_acl_name config)
    r ← admin_acl_query "DELETE" acl none false
    throw_if (failed r && not (not_found system r)) (probe_error ("delete network ACL " <> acl) r)
