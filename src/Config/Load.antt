-- ===== src/Config/Load.antt =====
-- config.py: `load_config`, from the JSON value that the file holds. Reading the file is not modelled:
-- an unreadable file and text that is no JSON raise before anything here.
use derico_sandbox.Errors.{
  Error, Result, allow_not_array, bad_cpus, bad_credentials, bad_disk, bad_firewall_enabled,
  bad_image, bad_memory, bad_workdir, both_limits, config_error, crash, ensure, err,
  firewall_not_object, missing_name, ok, refuse, resources_not_object, root_not_object,
  stop_iteration, ◌>>=◌, ◌>>◌,
}
use derico_sandbox.Json.{Value, arr, bool, end, fields, int, items, null, obj, text}
use derico_sandbox.Platform.{Platform}
use derico_sandbox.Prelude.{
  Bool, List, Option, String, [], contains, false, find?, if◌then◌else◌, leb, nat_Eq, none, some,
  string_Eq, true, ℕ, ◌&&◌, ◌==◌, ◌∷◌,
}
use derico_sandbox.Prelude.Int.{pos}
use mathlib.Core.Option
use derico_sandbox.Prelude.Dict.{Dict, get, keys, values}
use derico_sandbox.FilePath
use derico_sandbox.FilePath.{FilePath, path_eq, name}
use derico_sandbox.Config.Names.{reject_unknown, safe_text, sanitize_name}
use derico_sandbox.Config.Size.{is_size}
use derico_sandbox.Config.Ports.{parse_ports}
use derico_sandbox.Config.Mounts.{Mount, parse_mounts}
use derico_sandbox.Config.Firewall.{FirewallEntry, parse_entries}
use derico_sandbox.Config.Tailscale.{parse_tailscale}
use derico_sandbox.Config.Project.{ProjectConfig, Resources, root}
use derico_sandbox.Prelude.Text.{starts_with, strip}
use derico_sandbox.Prelude.Decimal.{show_int}

abbrev config_keys : List String
config_keys =
    "name" ∷ "workdir" ∷ "dirs" ∷ "ports" ∷ "firewall" ∷ "resources" ∷ "limits"
    ∷ "agent_credentials" ∷ "image" ∷ "tailscale" ∷ []

-- `str(value)`
unfoldable pub str_of : Platform → Value → String
str_of platform null = "None"
str_of platform (bool true) = "True"
str_of platform (bool false) = "False"
str_of platform (int z) = show_int z
str_of platform (text s) = s
str_of platform v = platform.repr v

unfoldable pub root_object : Value → Result (Dict String Value)
root_object (obj fs) = ok (fields fs)
root_object _ = err (config_error root_not_object)

unfoldable pub name_text : Option Value → Result String
name_text (some (text s)) = if strip s == "" then err (config_error missing_name) else ok s
name_text _ = err (config_error missing_name)

unfoldable pub root_target : Option Mount → Result String
root_target none = err (crash stop_iteration)
root_target (some m) = ok m.target

unfoldable pub parse_workdir : Platform → Option Value → List Mount → FilePath → Result String
parse_workdir platform none mounts root =
    root_target (find? (λ (m : Mount). path_eq m.source root) mounts)
parse_workdir platform (some null) mounts root =
    root_target (find? (λ (m : Mount). path_eq m.source root) mounts)
parse_workdir platform (some (text s)) mounts root =
    if starts_with s "/" then safe_text platform s "workdir" else err (config_error bad_workdir)
parse_workdir platform (some _) mounts root = err (config_error bad_workdir)

unfoldable pub firewall_object : Option Value → Result (Dict String Value)
firewall_object none = ok []
firewall_object (some (obj fs)) = ok (fields fs)
firewall_object (some _) = err (config_error firewall_not_object)

unfoldable pub bool_or : Option Value → Bool → Error → Result Bool
bool_or none default e = ok default
bool_or (some (bool b)) default e = ok b
bool_or (some _) default e = err e

unfoldable pub allow_list : Option Value → Result (List Value)
allow_list none = ok []
allow_list (some (arr vs)) = ok (items vs)
allow_list (some _) = err (config_error allow_not_array)

unfoldable pub parse_firewall : Platform → Dict String Value → Result (Bool × List FirewallEntry)
parse_firewall platform d = do
  firewall ← firewall_object (get d "firewall")
  reject_unknown firewall ("enabled" ∷ "allow" ∷ []) "firewall"
  enabled ← bool_or (get firewall "enabled") true (config_error bad_firewall_enabled)
  values ← allow_list (get firewall "allow")
  allow ← parse_entries platform values 0 "firewall.allow"
  ok (enabled, allow)

unfoldable pub limits_object : Value → Result (Dict String Value)
limits_object (obj fs) = ok (fields fs)
limits_object _ = err (config_error resources_not_object)

unfoldable pub cpu_count : Value → Result ℕ
cpu_count (int (pos n)) = if leb 1 n && leb n 128 then ok n else err (config_error bad_cpus)
cpu_count _ = err (config_error bad_cpus)

unfoldable pub parse_resources : Platform → Dict String Value → Result Resources
parse_resources platform d = do
  refuse (contains (keys d) "resources" && contains (keys d) "limits") both_limits
  limits ←
      limits_object (Option.get_or (get d "resources") (Option.get_or (get d "limits") (obj end)))
  reject_unknown limits ("cpus" ∷ "memory" ∷ "disk" ∷ []) "resources"
  cpus ← cpu_count (Option.get_or (get limits "cpus") (int (pos 4)))
  let memory = str_of platform (Option.get_or (get limits "memory") (text "8GiB"))
  let disk = str_of platform (Option.get_or (get limits "disk") (text "40GiB"))
  ensure (is_size memory) (bad_memory memory)
  ensure (is_size disk) (bad_disk disk)
  ok (record { cpus = cpus; memory = memory; disk = disk })

unfoldable pub image_text : Option Value → Result String
image_text none = ok "sandboxsh/base"
image_text (some (text s)) = if s == "" then err (config_error bad_image) else ok s
image_text (some _) = err (config_error bad_image)

-- `load_config(path)`, where `path` is resolved and the file holds `document`
unfoldable pub load_config : Platform → FilePath → Value → Result ProjectConfig
load_config platform path document = do
  d ← root_object document
  reject_unknown d config_keys "configuration"
  name_value ← name_text (get d "name")
  name ← sanitize_name platform name_value
  let root = FilePath.parent path
  mounts ← parse_mounts platform d root
  workdir ← parse_workdir platform (get d "workdir") mounts root
  ports ← parse_ports platform d
  tailscale ← parse_tailscale platform d
  firewall ← parse_firewall platform d
  resources ← parse_resources platform d
  image ← image_text (get d "image")
  image ← safe_text platform image "image"
  agent_credentials ← bool_or (get d "agent_credentials") true (config_error bad_credentials)
  ok (record {
    path = path;
    name = name;
    workdir = workdir;
    mounts = mounts;
    ports = ports;
    firewall_enabled = firewall.0;
    firewall_allow = firewall.1;
    resources = resources;
    image = image;
    agent_credentials = agent_credentials;
    tailscale = tailscale;
  })
