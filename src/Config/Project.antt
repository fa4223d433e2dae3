-- ===== src/Config/Project.antt =====
-- config.py: `Resources`, `ProjectConfig` and what it derives from its fields.
use Prim.Native.Char.{code}
use derico_sandbox.Config.Names.{sanitize_name}
use derico_sandbox.Errors.{Result, ok, ◌>>=◌}
use derico_sandbox.Json.{Value, arr, array, bool, int, obj, object, text}
use derico_sandbox.Json.Dumps.{dump}
use derico_sandbox.Platform.{Platform}
use derico_sandbox.Prelude.{
  Bool, List, String, [], filter, if◌then◌else◌, insert, leb, map, nat_Eq, nat_eq, not, string_Eq,
  ℕ, ◌<>◌, ◌∷◌,
}
use derico_sandbox.Prelude.Dict.{Dict, put}
use derico_sandbox.Prelude.Int.{pos}
use derico_sandbox.Prelude.Sort.{sorted}
use derico_sandbox.FilePath
use derico_sandbox.FilePath.{FilePath, name}
use derico_sandbox.Config.Ports.{PortMapping}
use derico_sandbox.Config.Mounts.{Mount}
use derico_sandbox.Config.Firewall.{FirewallEntry}
use derico_sandbox.Config.Tailscale.{TailscaleSettings}
use derico_sandbox.Prelude.Text.{strip_by, take_chars}

pub record Resources : Type 0 where
  pub cpus : ℕ
  pub memory : String
  pub disk : String

pub record ProjectConfig : Type 0 where
  pub path : FilePath
  pub name : String
  pub workdir : String
  pub mounts : List Mount
  pub ports : List PortMapping
  pub firewall_enabled : Bool
  pub firewall_allow : List FirewallEntry
  pub resources : Resources
  pub image : String
  pub agent_credentials : Bool
  pub tailscale : TailscaleSettings

-- `ProjectConfig.root`
abbrev pub root : ProjectConfig → FilePath
root c = FilePath.parent c.path

-- `str(config.path)`, the key of the project in every file of the host's state
abbrev pub project_key : ProjectConfig → String
project_key c = FilePath.render c.path

unfoldable pub guest_set : List PortMapping → List ℕ → List ℕ
guest_set [] seen = seen
guest_set (m ∷ ms) seen = guest_set ms (insert m.guest seen)

-- `ProjectConfig.guest_ports`
unfoldable pub guest_ports : ProjectConfig → List ℕ
guest_ports c = sorted leb (guest_set c.ports [])

-- `ProjectConfig.publishable`
unfoldable pub publishable : ProjectConfig → List PortMapping
publishable c = if not c.tailscale.enabled then [] else filter (λ m. m.tailnet) c.ports

-- `s.replace(".", "-")`
unfoldable pub dots_to_dashes : String → String
dots_to_dashes String.[] = String.[]
dots_to_dashes (String.◌∷◌ c s) =
    let rest = dots_to_dashes s in if nat_eq (code c) b'.' then "-" <> rest else String.◌∷◌ c rest

module _ (platform : Platform) where
  -- `ProjectConfig.instance_name`
  unfoldable pub instance_name : ProjectConfig → Result String
  instance_name c = do
    let digest = take_chars 8 (platform.sha256 (FilePath.render c.path))
    label ← sanitize_name platform (FilePath.name (FilePath.parent c.path))
    let stem = strip_by (λ x. nat_eq (code x) b'-') (dots_to_dashes label)
    ok (take_chars 63 ("ss-" <> stem <> "-" <> digest))

  -- `ProjectConfig.acl_name`
  unfoldable pub acl_name : ProjectConfig → Result String
  acl_name c = do name ← instance_name c; ok (take_chars 63 ("acl-" <> name))

  -- `ProjectConfig._immutable_document`
  unfoldable pub immutable_document : ProjectConfig → Dict String Value
  immutable_document c =
      ("image", text c.image)
      ∷ (
        "resources",
        obj (
            object (
              ("cpus", int (pos c.resources.cpus))
              ∷ ("memory", text c.resources.memory)
              ∷ ("disk", text c.resources.disk)
              ∷ [])),
      )
      ∷ ("agent_credentials", bool c.agent_credentials)
      ∷ []

  -- `_fingerprint`
  unfoldable pub fingerprint : Dict String Value → String
  fingerprint document = platform.sha256 (dump platform (obj (object document)))

  -- `ProjectConfig.immutable_fingerprint`
  unfoldable pub immutable_fingerprint : ProjectConfig → String
  immutable_fingerprint c = fingerprint (immutable_document c)

  -- `ProjectConfig.legacy_immutable_fingerprint`, of rows (source, target, readonly)
  unfoldable pub legacy_immutable_fingerprint :
      ProjectConfig → List (String × String × Bool) → String
  legacy_immutable_fingerprint c rows =
      let row = λ (r : String × String × Bool). arr (array (text r.0 ∷ text r.1 ∷ bool r.2 ∷ [])) in
      fingerprint (put (immutable_document c) "mounts" (arr (array (map row rows))))
