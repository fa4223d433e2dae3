-- ===== src/Publish.antt =====
-- publish.py: `Endpoint` and `Publisher`, which drives the host helper.
use derico_sandbox.Incus.Instance.{guest_ip}
use Prim.Native.Char.{Char, code}
use derico_sandbox.Config.Ports.{PortMapping}
use derico_sandbox.Config.Project.{ProjectConfig, instance_name}
use derico_sandbox.Errors.{
  Result, cannot_publish, cannot_withdraw, err, no_helper, no_tailnet_address, no_tailscale, ok,
  publish_error,
}
use derico_sandbox.FilePath.{FilePath}
use derico_sandbox.Incus.Client.{detail_of}
use derico_sandbox.Incus.Values.{dict_of, or_empty}
use derico_sandbox.Json.{Value, text}
use derico_sandbox.Prelude.{
  Bool, List, Option, String, [], false, head_or, if◌then◌else◌, map, nat_Eq, nat_eq, none, some,
  string_Eq, ◌<>◌, ◌==◌, ◌∷◌,
}
use derico_sandbox.Prelude.Decimal.{show}
use derico_sandbox.Prelude.Dict.{get}
use derico_sandbox.Prelude.Text.{or_none, rstrip_by, split, strip, strip_by}
use derico_sandbox.Errors
use mathlib.Core.Option
use derico_sandbox.FilePath
use derico_sandbox.System.{
  Action, Output, System, failed, lift, return, run, throw, throw_if, when, ◌>>=◌, ◌>>◌,
}

abbrev helper : String
helper = "/usr/local/sbin/sandboxsh-publish-port"

-- `Endpoint`
pub record Published : Type 0 where
  pub mapping : PortMapping
  pub address : String
  pub hostname : Option String

-- `endpoint.authority`
unfoldable pub authority : Published → String
authority e = Option.get_or (or_none e.hostname) e.address <> ":" <> show e.mapping.host

-- `endpoint.url`
unfoldable pub url : Published → String
unfolding authority
url e = "http://" <> authority e

-- `f"{mapping.host}:{mapping.guest}"`
unfoldable pub port_pair : PortMapping → String
port_pair m = show m.host <> ":" <> show m.guest

abbrev is_dot : Char → Bool
is_dot c = nat_eq (code c) b'.'

-- `name.rstrip(".").split(".")[0]`, unless nothing else is in the name
unfoldable pub short_name : Option Value → Option String
short_name (some (text s)) =
    if strip_by is_dot s == "" then none else some (head_or "" (split b'.' (rstrip_by is_dot s)))
short_name _ = none

abbrev pub endpoint : String → Option String → PortMapping → Published
endpoint address hostname m = record { mapping = m; address = address; hostname = hostname }

module _ (system : System) where
  -- `Publisher.helper_available`
  unfoldable pub helper_available : Bool
  helper_available = system.platform.exists (FilePath.parts helper)

  -- `_tailscale`
  unfoldable pub tailscale : Result String
  tailscale = elim (system.which "tailscale") [
    | some binary ↦ ok binary
    | none ↦ err (publish_error no_tailscale)
  ]

  -- The loop of `Publisher.address`.
  unfoldable pub first_ipv4 : List String → Option String
  first_ipv4 [] = none
  first_ipv4 (line ∷ rest) =
      let others = first_ipv4 rest in
      let own : Option String = elim (system.ipv4_address (strip line)) [
        | some address ↦ some address
        | none ↦ others
      ] in
      if strip line == "" then others else own

  abbrev found_ipv4 : Option String → Result String
  found_ipv4 none = err (publish_error no_tailnet_address)
  found_ipv4 (some ip) = ok ip

  -- What it asks tailscale, where no address is configured.
  unfoldable pub tailnet_address : Action String
  tailnet_address = do
    binary ← lift tailscale
    r ← run system (binary ∷ "ip" ∷ "-4" ∷ []) false none
    lift (found_ipv4 (first_ipv4 (system.lines r.stdout)))

  unfoldable pub fixed_or_tailnet : Option String → Action String
  fixed_or_tailnet (some fixed) = return fixed
  fixed_or_tailnet none = tailnet_address

  -- `Publisher.address`
  unfoldable pub address : ProjectConfig → Action String
  address config = fixed_or_tailnet (or_none config.tailscale.address)

  -- The name that `tailscale status` tells.
  unfoldable pub node_name : Output → Result (Option String)
  node_name r =
      let named : Result (Option String) = elim (system.loads r.stdout) [
        | none ↦ ok none
        | some payload ↦ Errors.◌>>=◌ (dict_of payload) λ d.
            Errors.◌>>=◌ (or_empty system (get d "Self"))
              λ self_. ok (short_name (get self_ "DNSName"))
      ] in
      if failed r then ok none else named

  unfoldable pub told_by : Option String → Action (Option String)
  told_by none = return none
  told_by (some binary) = do
    r ← run system (binary ∷ "status" ∷ "--json" ∷ []) false none
    lift (node_name r)

  -- `Publisher.hostname`
  unfoldable pub hostname : Action (Option String)
  hostname = told_by (system.which "tailscale")

  abbrev unknown : String
  unknown = "unknown error"

  unfoldable pub drop_listeners : ProjectConfig → Action (Unit {0})
  drop_listeners config = do
    instance_ ← lift (instance_name system.platform config)
    r ← run system ("sudo" ∷ helper ∷ "clear" ∷ instance_ ∷ []) false none
    throw_if (failed r) (publish_error (cannot_withdraw (detail_of unknown r)))

  -- `Publisher.clear`
  unfoldable pub clear : ProjectConfig → Action (Unit {0})
  clear config = when helper_available (drop_listeners config)

  abbrev sync_argv : String → String → String → List PortMapping → List String
  sync_argv instance_ bound guest_ip mappings =
      "sudo" ∷ helper ∷ "sync" ∷ instance_ ∷ bound ∷ guest_ip ∷ map port_pair mappings

  unfoldable pub drive_helper :
      ProjectConfig → String → String → List PortMapping → Action (Unit {0})
  drive_helper config guest_ip bound mappings = do
    instance_ ← lift (instance_name system.platform config)
    r ← run system (sync_argv instance_ bound guest_ip mappings) false none
    throw_if (failed r) (publish_error (cannot_publish (detail_of unknown r)))

  unfoldable pub listen :
      ProjectConfig → String → String → List PortMapping → Action (List Published)
  listen config guest_ip bound mappings = do
    drive_helper config guest_ip bound mappings
    name ← hostname
    return (map (endpoint bound name) mappings)

  -- `Publisher.sync`
  unfoldable pub sync : ProjectConfig → String → String → List PortMapping → Action (List Published)
  sync config guest_ip bound [] =
      if helper_available then clear config >> return [] else throw (publish_error no_helper)
  sync config guest_ip bound (m ∷ ms) =
      if helper_available
      then listen config guest_ip bound (m ∷ ms)
      else throw (publish_error no_helper)
