-- ===== src/Config/Ports.antt =====
-- config.py: `PortMapping`, `_parse_port`, `_parse_port_mapping` and `_parse_ports`.
pub mod Accepted
use Prim.Native.Char.{Char, code}
use mathlib.Core.Option
use derico_sandbox.Prelude.{
  ℕ, zero, suc, ◌+◌, ◌*◌, ◌-◌, String, ◌<>◌, List, [], ◌∷◌, Bool, true, false, not, ◌&&◌, Option,
  none, some, contains, nat_eq, nat_Eq, string_Eq, leb, if◌then◌else◌,
}
use derico_sandbox.Prelude.Int.{ℤ, pos, negsuc}
use derico_sandbox.Prelude.Dict.{Dict, get}
use derico_sandbox.Prelude.Sort.{sorted}
use derico_sandbox.Prelude.Text.{is_space, strip_by}
use derico_sandbox.Prelude.Decimal.{show}
use derico_sandbox.Errors.{
  Result, ok, err, config_error, crash, overflow_error, ◌>>=◌, ◌>>◌, not_a_port, port_range,
  missing_guest, bad_tailnet, ports_not_array, duplicate_guest, duplicate_host,
}
use derico_sandbox.Json.{
  Value, null, bool, int, real, text, arr, obj, finite, infinite, nan, items, fields,
}
use derico_sandbox.Platform.{Platform}
use derico_sandbox.Config.Names.{reject_unknown}

pub record PortMapping : Type 0 where
  pub guest : ℕ
  pub host : ℕ
  pub tailnet : Bool

-- `PortMapping.approval_key`
unfoldable pub approval_key : PortMapping → String
approval_key m = show m.guest <> "|" <> show m.host

-- The digits of `int(text)`: single underscores may stand between two of them. The flag tells that a
-- digit must come next.
unfoldable pub int_digits : Platform → Bool → ℕ → String → Option ℕ
int_digits platform wants acc String.[] = if wants then none else some acc
int_digits platform wants acc (String.◌∷◌ c s) =
    let gap = int_digits platform true acc s in
    elim (platform.decimal c) [
      | some d ↦ int_digits platform false (acc * 10 + d) s
      | none ↦ if nat_eq (code c) b'_' && not wants then gap else none
    ]

abbrev pub negate : ℕ → ℤ
negate zero = pos zero
negate (suc n) = negsuc n

unfoldable pub signed : Platform → String → Option ℤ
signed platform String.[] = none
signed platform (String.◌∷◌ c s) =
    if nat_eq (code c) b'-'
    then Option.map negate (int_digits platform true 0 s)
    else if nat_eq (code c) b'+'
    then Option.map pos (int_digits platform true 0 s)
    else Option.map pos (int_digits platform true 0 (String.◌∷◌ c s))

-- What `int` passes over in front and behind: not the separators 28 to 31, which `str.strip` removes.
abbrev pub is_int_space : Char → Bool
is_int_space c = is_space c && not (leb 28 (code c) && leb (code c) 31)

-- `int(text)`, or `none` for a `ValueError`
unfoldable pub int_of_text : Platform → String → Option ℤ
int_of_text platform s = signed platform (strip_by is_int_space s)

-- `int(value)` under its `except (TypeError, ValueError)`: `int` of an infinite float is an
-- `OverflowError`, which is neither.
unfoldable pub int_of : Platform → Value → String → Result ℤ
int_of platform (bool b) label = err (config_error (not_a_port label))
int_of platform (int z) label = ok z
int_of platform (real (finite z)) label = ok z
int_of platform (real infinite) label = err (crash overflow_error)
int_of platform (text s) label = elim (int_of_text platform s) [
  | some z ↦ ok z
  | none ↦ err (config_error (not_a_port label))
]
int_of platform _ label = err (config_error (not_a_port label))

unfoldable pub check_port : ℤ → String → Result ℕ
check_port (pos n) label =
    if leb 1 n && leb n 65535 then ok n else err (config_error (port_range label))
check_port (negsuc n) label = err (config_error (port_range label))

-- `_parse_port`; the test on `bool` is the first clause of `int_of`
unfoldable pub parse_port : Platform → Value → String → Result ℕ
parse_port platform value label = do port ← int_of platform value label; check_port port label

unfoldable pub ports_label : ℕ → String
ports_label index = "ports[" <> show index <> "]"

unfoldable pub tailnet_flag : Option Value → ℕ → Result Bool
tailnet_flag none index = ok true
tailnet_flag (some (bool b)) index = ok b
tailnet_flag (some _) index = err (config_error (bad_tailnet index))

unfoldable pub parse_mapping_object : Platform → Dict String Value → ℕ → Result PortMapping
parse_mapping_object platform value index = do
  reject_unknown value ("guest" ∷ "host" ∷ "tailnet" ∷ []) (ports_label index)
  given ← elim (get value "guest") [
    | none ↦ err (config_error (missing_guest index))
    | some v ↦ ok v
  ]
  guest ← parse_port platform given (ports_label index <> ".guest")
  host ←
      parse_port platform (Option.get_or (get value "host") (int (pos guest)))
        (ports_label index <> ".host")
  tailnet ← tailnet_flag (get value "tailnet") index
  ok (record { guest = guest; host = host; tailnet = tailnet })

unfoldable pub parse_port_mapping : Platform → Value → ℕ → Result PortMapping
parse_port_mapping platform (obj fs) index = parse_mapping_object platform (fields fs) index
parse_port_mapping platform value index = do
  port ← parse_port platform value (ports_label index)
  ok (record { guest = port; host = port; tailnet = true })

-- The generator over `enumerate(entries)`, from an index on.
unfoldable pub parse_mappings : Platform → List Value → ℕ → Result (List PortMapping)
parse_mappings platform [] index = ok []
parse_mappings platform (v ∷ vs) index = do
  m ← parse_port_mapping platform v index
  ms ← parse_mappings platform vs (suc index)
  ok (m ∷ ms)

-- The loop that refuses duplicates; the lists are `seen_guest` and `seen_host`.
unfoldable pub check_duplicates : List ℕ → List ℕ → List PortMapping → Result (Unit {0})
check_duplicates guests hosts [] = ok tt
check_duplicates guests hosts (m ∷ ms) =
    let unpublished = check_duplicates (m.guest ∷ guests) hosts ms in
    let published = check_duplicates (m.guest ∷ guests) (m.host ∷ hosts) ms in
    if contains guests m.guest
    then err (config_error (duplicate_guest m.guest))
    else if not m.tailnet
    then unpublished
    else if contains hosts m.host
    then err (config_error (duplicate_host m.host))
    else published

abbrev pub by_guest : PortMapping → PortMapping → Bool
by_guest a b = leb a.guest b.guest

unfoldable pub entries_of : Option Value → Result (List Value)
entries_of none = ok []
entries_of (some (arr vs)) = ok (items vs)
entries_of (some _) = err (config_error ports_not_array)

unfoldable pub parse_ports : Platform → Dict String Value → Result (List PortMapping)
parse_ports platform d = do
  entries ← entries_of (get d "ports")
  mappings ← parse_mappings platform entries 0
  check_duplicates [] [] mappings
  ok (sorted by_guest mappings)
