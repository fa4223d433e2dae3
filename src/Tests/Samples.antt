-- ===== src/Tests/Samples.antt =====
-- A sample platform, host and project.
use derico_sandbox.FilePath
use derico_sandbox.Config.Firewall.{FirewallEntry}
use derico_sandbox.Config.Mounts.{Mount}
use derico_sandbox.Config.Ports.{PortMapping}
use derico_sandbox.Config.Project.{ProjectConfig}
use derico_sandbox.FilePath.{FilePath}
use derico_sandbox.Host.{Host, accept}
use derico_sandbox.Platform.{Network, Platform}
use derico_sandbox.Prelude.{
  List, [], false, if◌then◌else◌, nat_Eq, none, some, string_Eq, true, ◌==◌, ◌∷◌,
}
use derico_sandbox.Prelude.Decimal.{digit_value, is_digit}
use derico_sandbox.Security.Ledger.{Approvals, Ledger}

abbrev public_network : Network
public_network = record {
  rendered = "203.0.113.7/32";
  is_loopback = false;
  is_link_local = false;
  is_multicast = false;
  is_unspecified = false;
  is_reserved = false;
  is_global = true;
}

abbrev pub platform : Platform
platform = record {
  category = λ c. "Ll";
  decimal = λ c. if is_digit c then some (digit_value c) else none;
  repr = λ v. "repr";
  json_text = λ s. s;
  ip_address = λ s. none;
  ip_network = λ s. if s == "203.0.113.7" then some public_network else none;
  sha256 = λ s. s;
  expand_user = λ s. s;
  resolve = λ s. FilePath.parts s;
  exists = λ p. true;
}

abbrev pub host : Host
host = record {
  home = "home" ∷ "dev" ∷ [];
  allow_sensitive_mounts = false;
  allow_open_network = false;
  confirm = λ asked question. accept;
}

abbrev pub project_file : FilePath
project_file = "home" ∷ "dev" ∷ "app" ∷ ".sandboxsh.json" ∷ []

abbrev pub mapping : PortMapping
mapping = record { guest = 3000; host = 8080; tailnet = true }

abbrev pub entry : FirewallEntry
entry = record { host = "example.org"; ports = 443 ∷ []; protocol = "tcp"; allow_private = false }

abbrev project_mounts : List Mount
project_mounts =
    record {
      source = "home" ∷ "dev" ∷ "app" ∷ [];
      target = "/home/dev/app";
      readonly = false;
      inside_project = true;
    }
    ∷ record { source = "data" ∷ []; target = "/data"; readonly = true; inside_project = false }
    ∷ []

abbrev pub project : ProjectConfig
project = record {
  path = project_file;
  name = "app";
  workdir = "/home/dev/app";
  mounts = project_mounts;
  ports = mapping ∷ [];
  firewall_enabled = true;
  firewall_allow = entry ∷ [];
  resources = record { cpus = 4; memory = "8GiB"; disk = "30GiB" };
  image = "sandboxsh/base";
  agent_credentials = false;
  tailscale = record { enabled = true; address = none };
}

abbrev approvals : Approvals
approvals = record {
  mounts = "/data|/data|ro" ∷ [];
  firewall = "tcp|example.org|443|public" ∷ [];
  publish = [];
}

abbrev pub ledger : Ledger
ledger = ("/home/dev/app/.sandboxsh.json", approvals) ∷ []
