-- ===== src/Tests/Config.antt =====
-- Configurations that the loader accepts.
use derico_sandbox.Prelude.Decimal.{show, digit_char}
use derico_sandbox.Config.Names.{reject_unknown, safe_text}
use derico_sandbox.Prelude.Text.{
  is_space, join, split_onto, any_char, rstrip_by, strip, split, starts_with, drop_while, reverse,
  strip_by,
}
use derico_sandbox.Tests.Samples.{platform}
use derico_sandbox.Config.Mounts.Accepted.{IsValid as MountsValid}
use derico_sandbox.Config.Ports.Accepted.{IsValid as PortsValid}
use derico_sandbox.Config.Firewall.Accepted.{IsValid as EntryValid}
use derico_sandbox.Config.Firewall.{
  FirewallEntry, parse_firewall_entry, entry_protocol, raw_entry, parse_port_set, entry_host,
  entry_ports, entry_private,
}
use derico_sandbox.Config.Firewall.Accepted.{parse_firewall_entry-IsValid}
use derico_sandbox.Config.Mounts.{
  Mount, free_target, parse_mounts, parse_mount_list, check_root, mount_path, mount_readonly,
  parse_mount, mount_target, choose_target, candidate, raw_mount, resolve_source, given_target,
  dir_entries,
}
use derico_sandbox.Config.Mounts.Accepted.{parse_mounts-IsValid}
use derico_sandbox.Config.Mounts.Targets.{free_target_lem}
use derico_sandbox.Config.Ports.{
  PortMapping, by_guest, entries_of, parse_mappings, parse_port, parse_ports, int_digits,
  parse_port_mapping, tailnet_flag, check_port, parse_mapping_object, int_of, signed, int_of_text,
  check_duplicates,
}
use derico_sandbox.Config.Ports.Accepted.{
  guests, parse_ports-IsValid, parse_ports_iff, published_hosts,
}
use derico_sandbox.Config.Size.{
  is_size, parse_size, scan_digits, is_upper_unit, scan_char, size_suffix,
}
use derico_sandbox.Config.Size.Bytes.{one_line, parse_size-is_size}
use derico_sandbox.Errors.{Result, err, ok}
use derico_sandbox.FilePath.{FilePath, name, render, is_relative_to, parts}
use derico_sandbox.Json.{Value, arr, array, bool, int, obj, object, text}
use derico_sandbox.Prelude.{
  IsDistinct, List, String, [], contains, false, map, nat_Eq, refl, string_Eq, true, ℕ, ◌<◌, ◌↔◌,
  ◌∷◌, ◌≡◌,
}
use derico_sandbox.Prelude.Dict.{Dict, get}
use derico_sandbox.Prelude.Int.{pos}
use derico_sandbox.Prelude.Sort.{sorted, insert_sorted}

-- `{"dirs": [{"path": "."}, {"path": "/data", "ro": true}]}`, and `{"ports": [8000, {"guest": 3000, "host": 8080, "tailnet": true}]}`
abbrev dirs : Dict String Value
dirs =
    (
      "dirs",
      arr (array (text "." ∷ obj (object (("path", text "/data") ∷ ("ro", bool true) ∷ [])) ∷ [])),
    )
    ∷ []

abbrev port_values : List Value
port_values =
    int (pos 8000)
    ∷ obj (
        object (("guest", int (pos 3000)) ∷ ("host", int (pos 8080)) ∷ ("tailnet", bool true) ∷ []))
    ∷ []

abbrev pub ports : Dict String Value
ports = ("ports", arr (array port_values)) ∷ []

abbrev app : FilePath
app = "home" ∷ "dev" ∷ "app" ∷ []

abbrev list_of {ℓ} : {A : Type ℓ} → Result (List A) → List A
list_of (ok xs) = xs
list_of (err e) = []

abbrev read_mounts : List Mount
read_mounts = list_of (parse_mounts platform dirs app)

mounts_read : parse_mounts platform dirs app ≡ ok read_mounts
unfolding parse_mounts dir_entries get parse_mount_list parse_mount raw_mount safe_text any_char
    render join resolve_source starts_with parts split split_onto choose_target reject_unknown
    candidate check_root free_target given_target mount_path mount_readonly mount_target
    is_relative_to name digit_char show insert_sorted sorted drop_while reverse rstrip_by
mounts_read = refl

mounts_targets :
    map (λ (m : Mount). m.target) read_mounts ≡ "/workspaces/app" ∷ "/workspaces/data" ∷ []
unfolding parse_mounts dir_entries get parse_mount_list parse_mount raw_mount safe_text any_char
    render join resolve_source starts_with parts split split_onto choose_target reject_unknown
    candidate check_root free_target given_target mount_path mount_readonly mount_target
    is_relative_to name digit_char show insert_sorted sorted drop_while reverse rstrip_by
mounts_targets = refl

parse_mounts-IsValid_example : MountsValid app read_mounts
parse_mounts-IsValid_example = parse_mounts-IsValid platform dirs app read_mounts mounts_read

abbrev read_ports : List PortMapping
read_ports = list_of (parse_ports platform ports)

ports_read : parse_ports platform ports ≡ ok read_ports
unfolding parse_ports entries_of get parse_mappings parse_port_mapping parse_port int_of check_port
    parse_mapping_object reject_unknown sorted tailnet_flag check_duplicates
ports_read = refl

ports_in_order :
    read_ports
    ≡ record { guest = 3000; host = 8080; tailnet = true }
      ∷ record { guest = 8000; host = 8000; tailnet = true }
      ∷ []
unfolding parse_ports entries_of get parse_mappings parse_port_mapping parse_port int_of check_port
    parse_mapping_object reject_unknown sorted tailnet_flag check_duplicates
ports_in_order = refl

parse_ports-IsValid_example : PortsValid read_ports
parse_ports-IsValid_example = parse_ports-IsValid platform ports read_ports ports_read

abbrev mappings : List PortMapping
mappings = list_of (parse_mappings platform port_values 0)

values_given : entries_of (get ports "ports") ≡ ok port_values
unfolding entries_of get
values_given = refl

mappings_read : parse_mappings platform port_values 0 ≡ ok mappings
unfolding parse_mappings parse_port_mapping parse_port int_of check_port parse_mapping_object
    reject_unknown sorted get tailnet_flag
mappings_read = refl

parse_ports_iff_example :
    (parse_ports platform ports ≡ ok (sorted by_guest mappings))
    ↔ (IsDistinct (guests mappings) × IsDistinct (published_hosts mappings))
parse_ports_iff_example =
    parse_ports_iff platform ports port_values mappings values_given mappings_read

port_text : parse_port platform (text " 8_080 ") "ports[0]" ≡ ok 8080
unfolding parse_port int_of int_of_text signed strip strip_by reverse drop_while is_space int_digits
    check_port
port_text = refl

abbrev udp_entry : Value
udp_entry = obj (
    object (
      ("host", text " example.org ")
      ∷ ("ports", arr (array (int (pos 53) ∷ int (pos 5) ∷ int (pos 53) ∷ [])))
      ∷ ("protocol", text "udp")
      ∷ []))

abbrev read_entry : FirewallEntry
read_entry = record {
  host = "example.org";
  ports = 5 ∷ 53 ∷ [];
  protocol = "udp";
  allow_private = false;
}

entry_read : parse_firewall_entry platform udp_entry 0 "firewall.allow" ≡ ok read_entry
unfolding parse_firewall_entry raw_entry reject_unknown sorted entry_host get strip strip_by reverse
    drop_while is_space safe_text any_char entry_protocol entry_private entry_ports parse_port_set
    check_port int_digits int_of int_of_text parse_port signed digit_char show insert_sorted
entry_read = refl

parse_firewall_entry-IsValid_example : EntryValid read_entry
parse_firewall_entry-IsValid_example =
    parse_firewall_entry-IsValid platform udp_entry 0 "firewall.allow" read_entry entry_read

free_target_lem_example :
    contains
      ("/home/dev/data" ∷ "/home/dev/data-1" ∷ [])
      (free_target "/home/dev/data" ("/home/dev/data" ∷ "/home/dev/data-1" ∷ []) 0 2)
    ≡ false
free_target_lem_example =
    free_target_lem "/home/dev/data" ("/home/dev/data" ∷ "/home/dev/data-1" ∷ [])

size_accepted : is_size "8GiB" ≡ true
unfolding is_size size_suffix scan_digits is_upper_unit scan_char
size_accepted = refl

size_line : one_line "8GiB" ≡ true
size_line = refl

parse_size-is_size_example : (n : ℕ) × (parse_size "8GiB" ≡ ok n) × (0 < n)
parse_size-is_size_example = parse_size-is_size "8GiB" size_accepted size_line
