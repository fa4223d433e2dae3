-- ===== src/Config/Firewall.antt =====
-- config.py: `FirewallEntry` and `parse_firewall_entry`.
pub mod Accepted
use derico_sandbox.Config.Names.{reject_unknown, safe_text}
use derico_sandbox.Config.Ports.{parse_port}
use derico_sandbox.Errors.{
  Result, bad_entry, bad_host, bad_ports, bad_private, bad_protocol, config_error, crash, err, ok,
  type_error, ◌>>◌, ◌>>=◌,
}
use derico_sandbox.Json.{Value, arr, array, bool, cons, fields, int, items, null, obj, text}
use derico_sandbox.Platform.{Platform}
use derico_sandbox.Prelude.{
  Bool, List, String, [], false, if◌then◌else◌, insert, leb, nat_Eq, string_Eq, suc, ℕ, ◌<>◌, ◌||◌,
  ◌∷◌, ◌==◌,
}
use derico_sandbox.Prelude.Decimal.{show}
use derico_sandbox.Prelude.Int.{pos}
use derico_sandbox.Prelude.Sort.{sorted}
use mathlib.Core.Option
use derico_sandbox.Prelude.Dict.{get, values}
use derico_sandbox.Prelude.Text.{strip}

pub record FirewallEntry : Type 0 where
  pub host : String
  pub ports : List ℕ
  pub protocol : String
  pub allow_private : Bool

-- The four values that are read from an entry, before they are checked.
pub record RawEntry : Type 0 where
  pub host : Value
  pub ports : Value
  pub protocol : Value
  pub allow_private : Value

abbrev default_ports : Value
default_ports = arr (array (int (pos 443) ∷ []))

unfoldable pub raw_entry : Value → String → Result RawEntry
raw_entry (text s) label = ok (record {
  host = text s;
  ports = default_ports;
  protocol = text "tcp";
  allow_private = bool false;
})
raw_entry (obj fs) label = do
  let d = fields fs
  reject_unknown d ("host" ∷ "ports" ∷ "protocol" ∷ "allow_private" ∷ []) label
  ok (record {
    host = Option.get_or (get d "host") null;
    ports = Option.get_or (get d "ports") default_ports;
    protocol = Option.get_or (get d "protocol") (text "tcp");
    allow_private = Option.get_or (get d "allow_private") (bool false);
  })
raw_entry _ label = err (config_error (bad_entry label))

-- `isinstance(host, str)` and `host.strip()` is not empty
unfoldable pub entry_host : Value → String → Result String
entry_host (text s) label = if strip s == "" then err (config_error (bad_host label)) else ok s
entry_host _ label = err (config_error (bad_host label))

-- `protocol in {"tcp", "udp"}`: a list or an object has no hash, and the test raises a `TypeError`.
unfoldable pub entry_protocol : Value → String → Result String
entry_protocol (text s) label =
    if s == "tcp" || s == "udp" then ok s else err (config_error (bad_protocol label))
entry_protocol (arr vs) label = err (crash type_error)
entry_protocol (obj fs) label = err (crash type_error)
entry_protocol _ label = err (config_error (bad_protocol label))

unfoldable pub entry_private : Value → String → Result Bool
entry_private (bool b) label = ok b
entry_private _ label = err (config_error (bad_private label))

unfoldable pub entry_ports : Value → String → Result (List Value)
entry_ports (arr (cons v vs)) label = ok (v ∷ items vs)
entry_ports _ label = err (config_error (bad_ports label))

-- The set comprehension over the ports.
unfoldable pub parse_port_set : Platform → List Value → String → List ℕ → Result (List ℕ)
parse_port_set platform [] label seen = ok seen
parse_port_set platform (v ∷ vs) label seen = do
  port ← parse_port platform v label
  parse_port_set platform vs label (insert port seen)

unfoldable pub parse_firewall_entry : Platform → Value → ℕ → String → Result FirewallEntry
parse_firewall_entry platform value index context = do
  let label = context <> "[" <> show index <> "]"
  raw ← raw_entry value label
  host ← entry_host raw.host label
  safe_text platform host (label <> ".host")
  protocol ← entry_protocol raw.protocol label
  allow_private ← entry_private raw.allow_private label
  values ← entry_ports raw.ports label
  parsed ← parse_port_set platform values (label <> ".ports") []
  ok (record {
    host = strip host;
    ports = sorted leb parsed;
    protocol = protocol;
    allow_private = allow_private;
  })

-- `tuple(parse_firewall_entry(value, index) for index, value in enumerate(values))`
unfoldable pub parse_entries : Platform → List Value → ℕ → String → Result (List FirewallEntry)
parse_entries platform [] index context = ok []
parse_entries platform (v ∷ vs) index context = do
  entry ← parse_firewall_entry platform v index context
  rest ← parse_entries platform vs (suc index) context
  ok (entry ∷ rest)
