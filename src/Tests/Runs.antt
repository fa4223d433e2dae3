-- ===== src/Tests/Runs.antt =====
-- Further runs, and the check of mounts: a whole configuration, its fingerprints, and the publications.
use derico_sandbox.Security.Mounts.{
  assert_mounts_safe, overlaps, sensitive_paths, assert_mount_safe, check_sensitive,
}
use derico_sandbox.Config.Size.{
  scan_digits, unit_exponent, scan_unit, scan_char, scale_from, scale, parse_size, is_upper_unit,
  is_small_unit, size_suffix, is_size,
}
use derico_sandbox.Config.Mounts.{
  mount_path, mount_readonly, mount_target, raw_mount, candidate, free_target, given_target,
  choose_target, resolve_source, parse_mount, parse_mount_list, check_root, dir_entries,
  parse_mounts, Mount,
}
use derico_sandbox.Config.Tailscale.{
  enabled_flag, parse_address, parse_tailscale_value, parse_tailscale,
}
use derico_sandbox.Security.Registry.{
  Registry, claim_host_ports, load_registry, stored as registered,
}
use derico_sandbox.Security.Registry.Contested.{IsFree, claim_host_ports_iff}
use derico_sandbox.Prelude.Sort.{sorted, insert_sorted}
use derico_sandbox.FilePath.{parent, name, render, is_relative_to, parts}
use derico_sandbox.Config.Ports.{
  int_digits, parse_port, signed, check_port, int_of, int_of_text, approval_key, ports_label,
  tailnet_flag, parse_mapping_object, parse_port_mapping, parse_mappings, check_duplicates,
  entries_of, parse_ports,
}
use derico_sandbox.Prelude.Decimal.{show, digit_char}
use derico_sandbox.Config.Names.{
  nth_char, dash_runs, lower_char, safe_text, lower, reject_unknown, sanitize_name,
}
use derico_sandbox.Prelude.Text.{
  is_space, starts_with, strip_by, reverse, split_onto, drop_while, strip, ends_with, split, join,
  take_chars, any_char, rstrip_by,
}
use derico_sandbox.Config.Firewall.{
  FirewallEntry, parse_entries, entry_host, parse_firewall_entry, entry_private, entry_ports,
  raw_entry, parse_port_set, entry_protocol,
}
use derico_sandbox.Config.Load.{
  load_config, str_of, root_object, name_text, root_target, parse_workdir, firewall_object, bool_or,
  allow_list, parse_firewall, limits_object, cpu_count, parse_resources, image_text,
}
use derico_sandbox.Config.Project.{
  ProjectConfig, instance_name, dots_to_dashes, publishable, acl_name, fingerprint,
  immutable_document, immutable_fingerprint, legacy_immutable_fingerprint, project_key,
}
use derico_sandbox.Errors.{Result, err, ok, security_error, sensitive_mount}
use derico_sandbox.Json.{Value, arr, array, bool, int, obj, object, text}
use derico_sandbox.Prelude.{
  List, Option, String, [], false, none, refl, some, true, ◌∷◌, ◌≡◌, nat_Eq, string_Eq, ◌↔◌, All,
}
use derico_sandbox.Prelude.Dict.{Dict, put, remove, get}
use derico_sandbox.Prelude.Int.{pos}
use derico_sandbox.Security.Approvals.{revoke_project_approvals}
use derico_sandbox.Security.Endpoints.{
  document, host_endpoints, relabel, is_version_one, listed_endpoints,
}
use derico_sandbox.Security.Publications.{approved_publications, split_one, split_all, save_split}
use derico_sandbox.Tests.Samples.{platform, host, project, project_file, mapping, entry, ledger}
use derico_sandbox.Security.Ledger.{stored, load_approvals}

abbrev document_fields : Dict String Value
document_fields =
    ("name", text "My App")
    ∷ ("dirs", arr (array (text "." ∷ [])))
    ∷ ("ports", arr (array (int (pos 3000) ∷ [])))
    ∷ ("firewall", obj (object (("allow", arr (array (text "example.org" ∷ []))) ∷ [])))
    ∷ ("limits", obj (object (("cpus", int (pos 2)) ∷ ("memory", text "4GiB") ∷ [])))
    ∷ ("tailscale", bool false)
    ∷ []

abbrev name_of : Result ProjectConfig → Option (String × String × List FirewallEntry)
name_of (ok c) = some (c.name, c.workdir, c.firewall_allow)
name_of (err e) = none

config_loaded :
    name_of (load_config platform project_file (obj (object document_fields)))
    ≡ some ("my-app", "/workspaces/app", entry ∷ [])
unfolding safe_text reject_unknown dash_runs nth_char lower_char lower sanitize_name int_digits
    signed int_of_text int_of check_port parse_port ports_label tailnet_flag parse_mapping_object
    parse_port_mapping parse_mappings check_duplicates entries_of parse_ports raw_entry entry_host
    entry_protocol entry_private entry_ports parse_port_set parse_firewall_entry parse_entries
    enabled_flag parse_address parse_tailscale_value parse_tailscale mount_path mount_readonly
    mount_target raw_mount candidate free_target given_target choose_target resolve_source
    parse_mount parse_mount_list check_root dir_entries parse_mounts scan_digits unit_exponent
    scan_unit scan_char scale_from scale parse_size is_upper_unit is_small_unit size_suffix is_size
    str_of root_object name_text root_target parse_workdir firewall_object bool_or allow_list
    parse_firewall limits_object cpu_count parse_resources image_text load_config render name parent
    is_relative_to parts reverse starts_with ends_with any_char is_space drop_while strip_by
    rstrip_by strip split_onto split join digit_char show get insert_sorted sorted take_chars
config_loaded = refl

vm_name : instance_name platform project ≡ ok "ss-app-/home/de"
unfolding instance_name sanitize_name safe_text any_char name parent lower strip_by reverse
    drop_while dash_runs strip is_space lower_char take_chars dots_to_dashes render nth_char join
vm_name = refl

publications : approved_publications host true project (stored ledger) ≡ (
  ok (mapping ∷ [], []),
  stored (
      (
        "/home/dev/app/.sandboxsh.json",
        record {
          mounts = "/data|/data|ro" ∷ [];
          firewall = "tcp|example.org|443|public" ∷ [];
          publish = "3000|8080" ∷ [];
        },
      )
      ∷ []),
)
unfolding approved_publications publishable load_approvals split_all split_one get render join
    save_split put approval_key show
publications = refl

revoked : revoke_project_approvals project (stored ledger) ≡ (ok tt, stored [])
unfolding revoke_project_approvals load_approvals get render join remove
revoked = refl

endpoints_read :
    host_endpoints platform (
      document (
        obj (
          object
            (("version", int (pos 1)) ∷ ("allow", arr (array (text "example.org" ∷ []))) ∷ []))))
    ≡ ok (entry ∷ [])
unfolding host_endpoints is_version_one get listed_endpoints relabel parse_entries
    parse_firewall_entry raw_entry entry_host strip strip_by reverse drop_while is_space safe_text
    any_char entry_protocol entry_ports entry_private parse_port_set reject_unknown check_port
    int_digits int_of int_of_text parse_port signed digit_char show insert_sorted sorted
endpoints_read = refl

acl : acl_name platform project ≡ ok "acl-ss-app-/home/de"
unfolding acl_name instance_name sanitize_name safe_text any_char name parent lower strip_by reverse
    drop_while dash_runs strip is_space lower_char take_chars dots_to_dashes nth_char render join
acl = refl

-- The ports of a project are no part of what makes its VM obsolete; its image is.
same_fingerprint :
    immutable_fingerprint platform (record project { ports = [] })
    ≡ immutable_fingerprint platform project
unfolding immutable_fingerprint immutable_document
same_fingerprint = refl

no_mounts :
    legacy_immutable_fingerprint platform project []
    ≡ fingerprint platform (put (immutable_document platform project) "mounts" (arr (array [])))
unfolding fingerprint legacy_immutable_fingerprint
no_mounts = refl

abbrev secrets : Mount
secrets = record {
  source = "home" ∷ "dev" ∷ ".ssh" ∷ "keys" ∷ [];
  target = "/keys";
  readonly = true;
  inside_project = false;
}

unsafe_mounts :
    assert_mounts_safe platform host (secrets ∷ [])
    ≡ err (security_error (sensitive_mount "/home/dev/.ssh/keys"))
unfolding assert_mounts_safe assert_mount_safe check_sensitive sensitive_paths overlaps
    is_relative_to parts split split_onto render join
unsafe_mounts = refl

-- The port 8080 is another project's.
abbrev occupied : Registry
occupied =
    (
      "8080",
      record { project = "/home/dev/other/.sandboxsh.json"; instance_name = "other"; guest = 80 },
    )
    ∷ []

occupied_loaded : load_registry (registered occupied) ≡ ok occupied
unfolding load_registry
occupied_loaded = refl

claim_host_ports_iff_example :
    ((claim_host_ports platform project (mapping ∷ []) (registered occupied)).0 ≡ ok tt)
    ↔ All (λ m. IsFree occupied (project_key project) (show m.host)) (mapping ∷ [])
claim_host_ports_iff_example =
    claim_host_ports_iff platform project (mapping ∷ []) (registered occupied) occupied
      "ss-app-/home/de" occupied_loaded vm_name
