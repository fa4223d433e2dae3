-- ===== src/Tests/Machine.antt =====
-- A sample machine: the answers of its commands, without a VM and with one.
use derico_sandbox.Prelude.Decimal.{is_digit}
use derico_sandbox.Config.Project.{ProjectConfig}
use derico_sandbox.Json.{Value, text, obj, object, arr, array}
use derico_sandbox.Prelude.{
  String, List, Option, Bool, ℕ, ◌∷◌, [], none, some, true, false, if◌then◌else◌, string_Eq, ◌==◌,
  ◌+◌, nat_Eq, contains, ◌&&◌,
}
use derico_sandbox.Prelude.Dict.{Dict}
use derico_sandbox.Prelude.Int.{pos}
use derico_sandbox.Security.Endpoints.{no_file}
use derico_sandbox.Security.Hosts.{found}
use derico_sandbox.Security.Ledger.{stored}
use derico_sandbox.Security.Registry.{missing}
use derico_sandbox.Host.{accept}
use derico_sandbox.System.{Event, Output, State, System, slept}
use derico_sandbox.Tests.Samples.{platform, host, ledger, project}

abbrev says : String → Output
says s = record { stdout = s; stderr = ""; returncode = pos 0 }

abbrev fails : String → Output
fails s = record { stdout = ""; stderr = s; returncode = pos 1 }

abbrev pub vm : String
vm = "ss-app-01234567"

-- Whether the VM exists, and the stamp that it bears.
abbrev answer_to : Bool → String → List String → Output
answer_to present stamp args =
    if contains args "info" && contains args "--vm"
    then says "fingerprint: f00d"
    else if contains args "project" && contains args "list"
    then says "projects"
    else if contains args "restricted"
    then says "true\n"
    else if contains args "/1.0"
    then says "server"
    else if contains args "list"
    then says (if present then "one vm" else "no vm")
    else if contains args "get-property"
    then says "20GiB\n"
    else if contains args "profile"
    then says "br0\n"
    else if contains args "ipv4.address"
    then fails "denied"
    else if contains args "addr"
    then says "lines of ip"
    else if contains args "override"
    then fails "already there"
    else if contains args "user.sandboxsh.immutable"
    then says stamp
    else if contains args "volatile.eth0.hwaddr"
    then says "00:AA\n"
    else if contains args "--get" && contains args "user.name"
    then says "Ann\n"
    else if contains args "-4"
    then says "100.64.0.1\n"
    else if contains args "--json"
    then says "tailnet"
    else if contains args "-n"
    then fails ""
    else says ""

abbrev interface : Value
interface = obj (
    object (
      ("hwaddr", text "00:aa")
      ∷ (
        "addresses",
        arr (
            array (
              obj (
                object (
                  ("family", text "inet")
                  ∷ ("scope", text "global")
                  ∷ ("address", text "10.0.0.7")
                  ∷ []))
              ∷ [])),
      )
      ∷ []))

abbrev devices : Value
devices = obj (
    object (
      ("workspace-0", obj (object (("source", text "/home/dev/app") ∷ ("path", text "/old") ∷ [])))
      ∷ ("workspace-7", obj (object (("source", text "/gone") ∷ ("path", text "/gone") ∷ [])))
      ∷ ("eth0", obj (object []))
      ∷ []))

abbrev pub vm_fields : Dict String Value
vm_fields =
    ("name", text vm)
    ∷ ("status", text "Stopped")
    ∷ ("devices", devices)
    ∷ ("state", obj (object (("network", obj (object (("enp5s0", interface) ∷ []))) ∷ [])))
    ∷ []

abbrev vm_record : Value
vm_record = obj (object vm_fields)

abbrev decode : String → Option Value
decode s =
    if s == "projects"
    then some (arr (array (obj (object (("name", text "user-1000") ∷ [])) ∷ [])))
    else if s == "server"
    then some
        (obj (object (("environment", obj (object (("server_version", text "6.0.6") ∷ []))) ∷ [])))
    else if s == "no vm"
    then some (arr (array []))
    else if s == "one vm"
    then some (arr (array (vm_record ∷ [])))
    else if s == "tailnet"
    then some (obj (object (("Self", obj (object (("DNSName", text "node.tail.net.") ∷ []))) ∷ [])))
    else none

-- A second passes with each event, and what a sleep asks for.
abbrev pub clock_of : List Event → ℕ
clock_of [] = 0
clock_of (slept d ∷ h) = clock_of h + d
clock_of (e ∷ h) = clock_of h + 1

abbrev pub machine : Bool → String → System
machine present stamp = record {
  platform = record platform { sha256 = λ s. "0123456789" };
  host = record host { allow_open_network = true };
  uid = 1000;
  gid = 1000;
  user = some "dev";
  groups = 1000 ∷ [];
  admin_group = none;
  allow_admin = false;
  pool = "default";
  claude_config = "home" ∷ "dev" ∷ ".claude" ∷ [];
  is_dir = λ p. true;
  is_file = λ p. true;
  which = λ s. some s;
  loads = decode;
  dumps = λ v. "json";
  is_nonzero = λ r. true;
  lower = λ s. if s == "00:AA" then "00:aa" else if s == "Stopped" then "stopped" else s;
  lines =
      λ s. if s == "lines of ip" then "2: br0 inet 10.0.0.1/24 scope global br0" ∷ [] else s ∷ [];
  words = λ s. "2:" ∷ "br0" ∷ "inet" ∷ "10.0.0.1/24" ∷ "scope" ∷ "global" ∷ "br0" ∷ [];
  is_digit = λ c. is_digit c;
  url_quote = λ s. s;
  shell_quote = λ s. s;
  interface_ip = λ s. if s == "10.0.0.1/24" then some "10.0.0.1" else none;
  ipv4_address = λ s. some s;
  getaddrinfo = λ name. found ("203.0.113.7" ∷ []);
  endpoints = no_file;
  interactive = true;
  confirm = λ history question. accept;
  respond = λ history args. some (answer_to present stamp args);
  outlasts = λ history args t. false;
  monotonic = clock_of;
}

-- It lets everything out and uses the shared credentials.
abbrev pub open_project : ProjectConfig
open_project = record project { firewall_enabled = false; agent_credentials = true }

abbrev pub fresh : State
fresh = record { history = []; ledger = stored ledger; registry = missing; manifest = none }
