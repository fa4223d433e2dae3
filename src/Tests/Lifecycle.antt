-- ===== src/Tests/Lifecycle.antt =====
-- Whole commands on the sample machine.
use derico_sandbox.Prelude.Int.{pos}
use derico_sandbox.Cli.Commands.{
  approve_command, credentials_reset_command, pending_line, publication_lines, publication_status,
  publish_command, refresh_firewall_command, running_status, status_command, tailnet_authority,
  tailnet_url, unpublish_command, url_command, url_lines, vm_url, address_line, approved_line,
  endpoint_line, named_or_bound, published_url,
}
use derico_sandbox.Cli.Lifecycle.{
  agent_command, attach_existing, authorize, bring_up, confirmed, create_new, destroy_command,
  down_command, exec_command, hand_over, recreate_command, require_running, restart, settle_guest,
  shell_command, up, wait_for_mounts, replace_existing,
}
use derico_sandbox.Cli.Ports.{
  approve, claim, demand_password, password_for, prime_sudo, publications, publish_and_report,
  publish_approved, publish_ports, publish_requested, release, report_unresolved_defaults, revoke,
  verify_and_approve, withdraw, not_published, published_line,
}
use derico_sandbox.Config.Load.{str_of}
use derico_sandbox.Config.Mounts.{
  candidate, check_root, choose_target, dir_entries, free_target, given_target, mount_path,
  mount_readonly, mount_target, parse_mount, parse_mount_list, parse_mounts, raw_mount,
  resolve_source,
}
use derico_sandbox.Config.Names.{dash_runs, lower, lower_char, safe_text, sanitize_name}
use derico_sandbox.Config.Ports.{int_digits}
use derico_sandbox.Config.Project.{
  acl_name, dots_to_dashes, fingerprint, guest_ports, guest_set, immutable_fingerprint,
  instance_name, legacy_immutable_fingerprint, publishable,
}
use derico_sandbox.Config.Size.{
  parse_size, scale, scale_from, scan_char, scan_digits, scan_unit, unit_exponent,
}
use derico_sandbox.FilePath.{is_relative_to, name, parent, parts, render}
use derico_sandbox.Incus.Address.{
  address_among, addresses_field, first_address, first_global, global_ipv4, interface_with,
  interfaces_in, interfaces_of, is_guest_local, shown_address,
}
use derico_sandbox.Incus.Client.{
  copy_instance, delete, enforceable, ensure_credentials_volume, environment_version, image_exists,
  image_property, instance_exists, instance_record, instance_status, is_admin_user, is_confined,
  list_instances, publish_image, rename, server_version, verify_acl_enforcement, verify_host_access,
  version_of, volume_exists, write_config, already_exists, detail_of, not_found,
}
use derico_sandbox.Incus.Guest.{
  configure_git, copy_git_setting, copy_git_settings, exec_argv, exec_environment, guest_probe,
  pin_allowlist, pin_document, pin_entries, preferred, shell_argv, unpin_allowlist, verify_guest,
  wait_for_agent, wait_for_guest_command, wait_for_mount, wait_loop,
}
use derico_sandbox.Incus.Devices.{
  add_credentials, add_devices, add_instructions, add_mount, add_mounts, add_skill, add_skills,
  host_instruction_source, host_skill_sources,
}
use derico_sandbox.Incus.Instance.{
  build_instance, check_disk_fits, check_image, create_instance, destroy, disk_fits, guest_ip,
  held_address, init_argv, launch, refuse_smaller, runs, set_up_guest, start, stop,
}
use derico_sandbox.Incus.Mounts.{
  assert_immutable_config, attach_device, attach_devices, bring_device, desired_devices,
  desired_from, device_args, device_command, device_dict, devices_of, indexed_devices,
  legacy_fingerprint, legacy_rows, mount_device, mount_rows, remove_device, remove_devices,
  removed_path, same_disk, stale_names, sync_mounts, workspace_devices,
}
use derico_sandbox.Incus.Network.{
  admin_acl_query, apply_acl, attach_acl, behind_inet, blocked_forwarding_remedy, bridge_gateway,
  bridge_gateway_from_kernel, create_acl, default_network, delete_acl, detach_acl, gateway_line,
  gateway_or_kernel, host_acl_name, line_address, nic_settings, override_nic, prepare_policy,
  rule_document, set_nic, set_nic_key, write_acl, accepts_bridge, policy_document,
}
use derico_sandbox.Incus.Values.{
  dict_of, elements, find_named, named_records, names_of, or_empty, truthy,
}
use derico_sandbox.Incus.Version.{
  acl_project_lookup_is_broken, leading_digits, padded, parse_server_version, version_numbers,
}
use derico_sandbox.Prelude.Decimal.{show, digit_char, show_int}
use derico_sandbox.Prelude.Dict.{get, put, remove}
use derico_sandbox.Prelude.{distinct, nat_Eq, string_Eq}
use derico_sandbox.Prelude.Sort.{sorted}
use derico_sandbox.Prelude.Text.{
  any_char, drop_chars, drop_while, has_text, is_space, join, or_none, reverse, rstrip_by, split,
  split_onto, starts_with, strip, strip_by, take_chars, ends_with,
}
use derico_sandbox.Publish.{
  address, authority, clear, drive_helper, drop_listeners, first_ipv4, fixed_or_tailnet,
  helper_available, listen, node_name, port_pair, short_name, sync, tailnet_address, tailscale,
  told_by, url, Published,
}
use derico_sandbox.Security.Acl.{build_acl_policy, open_policy}
use derico_sandbox.Security.Approvals.{
  approve_entries, approve_entry, approve_mount, approve_mounts, ensure_project_approvals,
  firewall_key, review, revoke_project_approvals, save_review,
}
use derico_sandbox.Security.Ledger.{load_approvals}
use derico_sandbox.Security.Mounts.{
  assert_mount_safe, assert_mounts_safe, check_sensitive, overlaps, sensitive_paths,
}
use derico_sandbox.Security.Publications.{approved_publications, split_all, split_one}
use derico_sandbox.Security.Registry.{
  release_host_ports, check_owners, claim_host_ports, claimant, foreign_owner, load_registry,
}
use derico_sandbox.System.{ask, exec, now, run, say_all}
use derico_sandbox.Config.Mounts
use derico_sandbox.Publish
use derico_sandbox.Errors.{
  ok, err, incus_error, cli_error, settings_changed, not_running, not_deleted, undeclared_port,
}
use derico_sandbox.Json.{null, text, obj, object, arr, array, end}
use derico_sandbox.Prelude.{◌≡◌, refl, true, false, some, none, ◌∷◌, []}
use derico_sandbox.Security.Acl.{allow_ingress}
use derico_sandbox.Tests.Machine.{fresh, machine, vm, vm_fields, open_project}
use derico_sandbox.Tests.Samples.{mapping}

-- `sandboxsh up` without a VM creates it and enters the shell.
up_absent : (up (machine false "") open_project true fresh).0 ≡ ok tt
unfolding create_new authorize bring_up hand_over up say_all report_unresolved_defaults approve
    publications claim verify_and_approve demand_password password_for prime_sudo publish_approved
    publish_requested publish_ports publish_and_report str_of Mounts.approval_key safe_text
    dash_runs lower_char lower sanitize_name int_digits publishable dots_to_dashes instance_name
    acl_name fingerprint immutable_fingerprint scan_digits unit_exponent scan_unit scan_char
    scale_from scale parse_size render name parent is_relative_to parts interfaces_in is_confined
    enforceable environment_version version_of server_version verify_acl_enforcement is_admin_user
    verify_host_access instance_record instance_exists image_exists volume_exists image_property
    ensure_credentials_volume pin_entries pin_document guest_probe wait_loop wait_for_guest_command
    wait_for_agent wait_for_mount pin_allowlist copy_git_setting copy_git_settings configure_git
    verify_guest shell_argv host_skill_sources host_instruction_source disk_fits refuse_smaller
    check_disk_fits init_argv add_mount add_mounts add_skill add_skills add_instructions
    add_credentials add_devices set_up_guest launch build_instance check_image create_instance
    held_address guest_ip mount_device device_args behind_inet nic_settings host_acl_name
    admin_acl_query default_network line_address gateway_line bridge_gateway_from_kernel
    gateway_or_kernel bridge_gateway prepare_policy create_acl write_acl apply_acl set_nic_key
    set_nic override_nic attach_acl elements dict_of find_named names_of padded
    acl_project_lookup_is_broken leading_digits version_numbers parse_server_version show get sorted
    reverse any_char is_space drop_while strip_by strip split_onto split join take_chars or_none
    helper_available open_policy build_acl_policy firewall_key save_review approve_mount
    approve_entry approve_mounts approve_entries review ensure_project_approvals load_approvals
    sensitive_paths overlaps check_sensitive assert_mount_safe assert_mounts_safe split_one
    split_all approved_publications load_registry foreign_owner check_owners claimant
    claim_host_ports run exec now
up_absent = refl

-- With a VM it brings the mounts in line and starts it; a changed stamp is refused.
up_present :
    ((up (machine true "0123456789") open_project false fresh).0 ≡ ok tt)
    × ((up (machine true "other") open_project false fresh).0 ≡ err (incus_error settings_changed))
unfolding wait_for_mounts settle_guest restart attach_existing authorize bring_up hand_over up
    say_all report_unresolved_defaults approve publications claim verify_and_approve demand_password
    password_for prime_sudo publish_approved publish_requested publish_ports publish_and_report
    str_of Mounts.approval_key safe_text dash_runs lower_char lower sanitize_name int_digits
    publishable dots_to_dashes instance_name acl_name fingerprint immutable_fingerprint
    legacy_immutable_fingerprint render name parent is_relative_to parts first_global
    addresses_field shown_address global_ipv4 interface_with address_among interfaces_of
    interfaces_in is_confined enforceable environment_version version_of server_version
    verify_acl_enforcement is_admin_user verify_host_access instance_record instance_exists
    instance_status pin_entries pin_document guest_probe wait_loop wait_for_guest_command
    wait_for_agent wait_for_mount pin_allowlist runs start held_address guest_ip mount_device
    device_args same_disk desired_from desired_devices workspace_devices stale_names devices_of
    indexed_devices removed_path device_dict mount_rows legacy_rows legacy_fingerprint
    assert_immutable_config device_command remove_device remove_devices attach_device bring_device
    attach_devices sync_mounts behind_inet nic_settings host_acl_name admin_acl_query
    default_network line_address gateway_line bridge_gateway_from_kernel gateway_or_kernel
    bridge_gateway prepare_policy create_acl write_acl apply_acl set_nic_key set_nic override_nic
    attach_acl elements dict_of truthy or_empty find_named names_of padded
    acl_project_lookup_is_broken leading_digits version_numbers parse_server_version show get
    distinct sorted reverse starts_with any_char is_space drop_while strip_by strip split_onto split
    join take_chars drop_chars or_none port_pair helper_available tailscale first_ipv4
    tailnet_address fixed_or_tailnet address node_name told_by Publish.hostname drive_helper listen
    sync open_policy build_acl_policy firewall_key save_review approve_mount approve_entry
    approve_mounts approve_entries review ensure_project_approvals load_approvals sensitive_paths
    overlaps check_sensitive assert_mount_safe assert_mounts_safe split_one split_all
    approved_publications load_registry foreign_owner check_owners claimant claim_host_ports run now
up_present = (refl, refl)

-- A guest command wants a VM that runs.
guest_commands :
    ((shell_command (machine true "") open_project fresh).0 ≡ err (cli_error not_running))
    × ((exec_command (machine true "") open_project ("ls" ∷ []) fresh).0
        ≡ err (cli_error not_running))
    × ((agent_command (machine false "") open_project open_project "pi" [] fresh).0 ≡ ok tt)
unfolding create_new authorize bring_up hand_over up require_running shell_command exec_command
    agent_command say_all report_unresolved_defaults approve publications claim verify_and_approve
    demand_password password_for prime_sudo publish_approved publish_requested publish_ports
    publish_and_report str_of Mounts.approval_key safe_text dash_runs lower_char lower sanitize_name
    int_digits publishable dots_to_dashes instance_name acl_name fingerprint immutable_fingerprint
    scan_digits unit_exponent scan_unit scan_char scale_from scale parse_size render name parent
    is_relative_to parts interfaces_in is_confined enforceable environment_version version_of
    server_version verify_acl_enforcement is_admin_user verify_host_access instance_record
    instance_exists image_exists volume_exists image_property ensure_credentials_volume
    instance_status pin_entries pin_document guest_probe wait_loop wait_for_guest_command
    wait_for_agent wait_for_mount pin_allowlist copy_git_setting copy_git_settings configure_git
    verify_guest exec_argv host_skill_sources host_instruction_source disk_fits refuse_smaller
    check_disk_fits init_argv add_mount add_mounts add_skill add_skills add_instructions
    add_credentials add_devices set_up_guest launch build_instance check_image create_instance
    held_address guest_ip mount_device device_args behind_inet nic_settings host_acl_name
    admin_acl_query default_network line_address gateway_line bridge_gateway_from_kernel
    gateway_or_kernel bridge_gateway prepare_policy create_acl write_acl apply_acl set_nic_key
    set_nic override_nic attach_acl elements dict_of find_named names_of padded
    acl_project_lookup_is_broken leading_digits version_numbers parse_server_version show get sorted
    reverse any_char is_space drop_while strip_by strip split_onto split join take_chars or_none
    helper_available open_policy build_acl_policy firewall_key save_review approve_mount
    approve_entry approve_mounts approve_entries review ensure_project_approvals load_approvals
    sensitive_paths overlaps check_sensitive assert_mount_safe assert_mounts_safe split_one
    split_all approved_publications load_registry foreign_owner check_owners claimant
    claim_host_ports run exec now
guest_commands = (refl, refl, refl)

-- `down`, `destroy` (which still finds the VM in the end), and `recreate`.
end_commands :
    ((down_command (machine true "") open_project fresh).0 ≡ ok tt)
    × ((destroy_command (machine true "") open_project false fresh).0
        ≡ err (incus_error (not_deleted vm)))
    × ((recreate_command (machine false "") open_project open_project true false fresh).0 ≡ ok tt)
    × ((destroy_command (machine false "") open_project true fresh).0 ≡ ok tt)
unfolding release_host_ports create_new authorize bring_up hand_over up down_command confirmed
    destroy_command recreate_command say_all report_unresolved_defaults approve publications claim
    release verify_and_approve demand_password password_for prime_sudo publish_approved
    publish_requested publish_ports publish_and_report withdraw str_of Mounts.approval_key safe_text
    dash_runs lower_char lower sanitize_name int_digits publishable dots_to_dashes instance_name
    acl_name fingerprint immutable_fingerprint scan_digits unit_exponent scan_unit scan_char
    scale_from scale parse_size render name parent is_relative_to parts interfaces_in is_confined
    enforceable environment_version version_of server_version verify_acl_enforcement is_admin_user
    verify_host_access instance_record instance_exists image_exists volume_exists image_property
    ensure_credentials_volume instance_status pin_entries pin_document guest_probe wait_loop
    wait_for_guest_command wait_for_agent wait_for_mount pin_allowlist copy_git_setting
    copy_git_settings configure_git verify_guest host_skill_sources host_instruction_source
    disk_fits refuse_smaller check_disk_fits init_argv add_mount add_mounts add_skill add_skills
    add_instructions add_credentials add_devices set_up_guest launch build_instance check_image
    create_instance stop destroy held_address guest_ip mount_device device_args behind_inet
    nic_settings host_acl_name admin_acl_query default_network line_address gateway_line
    bridge_gateway_from_kernel gateway_or_kernel bridge_gateway prepare_policy create_acl write_acl
    apply_acl set_nic_key set_nic override_nic attach_acl delete_acl elements dict_of find_named
    names_of padded acl_project_lookup_is_broken leading_digits version_numbers parse_server_version
    show get sorted reverse any_char is_space drop_while strip_by strip split_onto split join
    take_chars or_none helper_available drop_listeners clear open_policy build_acl_policy
    firewall_key save_review approve_mount approve_entry approve_mounts approve_entries review
    ensure_project_approvals load_approvals sensitive_paths overlaps check_sensitive
    assert_mount_safe assert_mounts_safe split_one split_all approved_publications load_registry
    foreign_owner check_owners claimant claim_host_ports run now ask
end_commands = (refl, refl, refl, refl)

-- The commands on ports and approvals.
port_commands :
    ((approve_command (machine true "") open_project false fresh).0 ≡ ok tt)
    × ((approve_command (machine true "") open_project true fresh).0 ≡ ok tt)
    × ((url_command (machine true "") open_project 3000 false fresh).0 ≡ ok tt)
    × ((url_command (machine true "") open_project 9 false fresh).0
        ≡ err (cli_error (undeclared_port 9)))
    × ((unpublish_command (machine true "") open_project fresh).0 ≡ ok tt)
    × ((publish_command (machine true "") open_project fresh).0 ≡ err (cli_error not_running))
    × ((publish_ports (machine true "") open_project fresh).0
        ≡ ok (record { mapping = mapping; address = "100.64.0.1"; hostname = some "node" } ∷ []))
    × ((publication_status (machine true "") open_project fresh).0
        ≡ ok ("tailnet:  guest 3000 awaiting `sandboxsh approve`" ∷ []))
unfolding release_host_ports pending_line publication_lines approve_command tailnet_authority
    publication_status vm_url tailnet_url url_command publish_command unpublish_command say_all
    approve revoke publications claim release demand_password password_for prime_sudo
    publish_approved publish_requested publish_ports str_of Mounts.approval_key safe_text dash_runs
    lower_char lower sanitize_name int_digits guest_set guest_ports publishable dots_to_dashes
    instance_name render name parent is_relative_to parts first_global addresses_field shown_address
    global_ipv4 interface_with address_among interfaces_of interfaces_in is_confined enforceable
    environment_version version_of server_version verify_acl_enforcement is_admin_user
    verify_host_access instance_record instance_status held_address guest_ip elements dict_of truthy
    or_empty find_named names_of padded acl_project_lookup_is_broken leading_digits version_numbers
    parse_server_version show get sorted reverse any_char is_space drop_while strip_by rstrip_by
    strip split_onto split join take_chars or_none port_pair short_name helper_available tailscale
    first_ipv4 tailnet_address fixed_or_tailnet address node_name told_by Publish.hostname
    drop_listeners clear drive_helper listen sync firewall_key approve_mount approve_entry
    approve_mounts approve_entries review ensure_project_approvals revoke_project_approvals
    load_approvals sensitive_paths overlaps check_sensitive assert_mount_safe assert_mounts_safe
    split_one split_all approved_publications load_registry foreign_owner check_owners claimant
    claim_host_ports run
port_commands = (refl, refl, refl, refl, refl, refl, refl, refl)

-- `status`, `refresh-firewall` and `credentials reset`.
other_commands :
    ((status_command (machine true "") open_project fresh).0 ≡ ok tt)
    × ((running_status (machine true "") open_project fresh).0 ≡ ok tt)
    × ((refresh_firewall_command (machine true "") open_project fresh).0 ≡ ok tt)
    × ((credentials_reset_command (machine true "") true fresh).0 ≡ ok tt)
    × ((blocked_forwarding_remedy (machine true "") "br0" fresh).0 ≡ ok none)
unfolding publication_lines url_lines tailnet_authority publication_status running_status
    status_command refresh_firewall_command credentials_reset_command confirmed say_all
    report_unresolved_defaults approve publications verify_and_approve demand_password password_for
    prime_sudo str_of Mounts.approval_key safe_text dash_runs lower_char lower sanitize_name
    int_digits guest_set guest_ports publishable dots_to_dashes instance_name acl_name render name
    parent is_relative_to parts first_global addresses_field shown_address global_ipv4
    interface_with address_among interfaces_of interfaces_in is_confined enforceable
    environment_version version_of server_version verify_acl_enforcement is_admin_user
    verify_host_access instance_record volume_exists instance_status held_address guest_ip
    behind_inet nic_settings host_acl_name admin_acl_query default_network blocked_forwarding_remedy
    line_address gateway_line bridge_gateway_from_kernel gateway_or_kernel bridge_gateway
    prepare_policy create_acl write_acl apply_acl set_nic_key set_nic override_nic attach_acl
    elements dict_of truthy or_empty find_named names_of padded acl_project_lookup_is_broken
    leading_digits version_numbers parse_server_version show get sorted reverse any_char is_space
    drop_while strip_by strip split_onto split join take_chars or_none helper_available tailscale
    first_ipv4 tailnet_address fixed_or_tailnet address node_name told_by Publish.hostname
    open_policy build_acl_policy firewall_key approve_mount approve_entry approve_mounts
    approve_entries review ensure_project_approvals load_approvals sensitive_paths overlaps
    check_sensitive assert_mount_safe assert_mounts_safe split_one split_all approved_publications
    run
other_commands = (refl, refl, refl, refl, refl)

-- The calls of the image builder.
image_calls :
    ((list_instances (machine true "") "ss-" fresh).0 ≡ ok (vm_fields ∷ []))
    × ((copy_instance (machine true "") "a" "b" fresh).0 ≡ ok tt)
    × ((rename (machine true "") "a" "b" fresh).0 ≡ ok tt)
    × ((delete (machine true "") "a" false fresh).0 ≡ ok tt)
    × ((write_config (machine true "") "a" (("k", "v") ∷ []) fresh).0 ≡ ok tt)
    × ((publish_image (machine true "") "a" "b" (("k", "v") ∷ []) fresh).0 ≡ ok tt)
    × ((unpin_allowlist (machine true "") "a" fresh).0 ≡ ok tt)
    × ((detach_acl (machine true "") "a" fresh).0 ≡ ok tt)
unfolding str_of list_instances copy_instance rename delete write_config publish_image
    unpin_allowlist detach_acl elements named_records show get starts_with run
image_calls = (refl, refl, refl, refl, refl, refl, refl, refl)

-- Versions, policies and pins.
versions :
    (parse_server_version (machine true "") " 6.22-rc1.x" ≡ ok (some (6, 22, 0)))
    × (exec_environment (("HERDR_AGENT", "x") ∷ []) ("/usr/bin/pi" ∷ [])
        ≡ ("HERDR_AGENT", "pi") ∷ [])
    × (rule_document (allow_ingress "80" (some "10.0.0.1"))
        ≡ obj (
            object (
              ("action", text "allow")
              ∷ ("state", text "enabled")
              ∷ ("description", text "host access to declared development ports")
              ∷ ("protocol", text "tcp")
              ∷ ("destination_port", text "80")
              ∷ ("source", text "10.0.0.1")
              ∷ [])))
    × (pin_entries (("a.org", "10.0.0.0/8" ∷ "::1" ∷ "10.0.0.1" ∷ []) ∷ []) ≡ "10.0.0.1 a.org" ∷ [])
    × (address_among (machine true "") "" (("lo", null) ∷ ("br-1", null) ∷ []) ≡ ok none)
unfolding int_digits name parts is_guest_local first_address address_among preferred pin_entries
    exec_environment rule_document padded leading_digits version_numbers parse_server_version put
    remove sorted reverse starts_with has_text is_space drop_while strip_by strip split_onto split
versions = (refl, refl, refl, refl, refl)

abbrev pub endpoint : Published
endpoint = record { mapping = mapping; address = "100.64.0.1"; hostname = some "node" }

-- The lines that the commands show, and the document of a policy.
shown_lines :
    (published_line endpoint ≡ "published: http://node:8080 -> guest port 3000")
    × (endpoint_line endpoint ≡ "http://node:8080 -> guest port 3000")
    × (approved_line "node" mapping ≡ "tailnet:  http://node:8080 -> guest 3000")
    × (address_line ("a.org", "10.0.0.1" ∷ "10.0.0.2" ∷ []) ≡ "a.org: 10.0.0.1, 10.0.0.2")
    × (has_text (not_published mapping) "guest port 3000" ≡ true)
    × (accepts_bridge "br0" "-A DOCKER-USER -i br0 -j ACCEPT" ≡ true)
    × (accepts_bridge "br0" "-A FORWARD -i br01 -j ACCEPT" ≡ false)
    × (policy_document (record {
      description = "d";
      ingress = [];
      egress = [];
      resolutions = [];
      unresolved_defaults = [];
    })
        ≡ obj (
            object (
              ("description", text "d")
              ∷ ("config", obj end)
              ∷ ("ingress", arr (array []))
              ∷ ("egress", arr (array []))
              ∷ [])))
unfolding published_line endpoint_line approved_line address_line not_published accepts_bridge
    policy_document authority url show join has_text ends_with starts_with or_none reverse
    drop_chars take_chars digit_char show_int
shown_lines = (refl, refl, refl, refl, refl, refl, refl, refl)

-- What `recreate` does first, the URL of a published port, and the texts of failed commands.
replaced_vm :
    ((replace_existing (machine true "") open_project true fresh).0
      ≡ err (incus_error (not_deleted vm)))
    × ((published_url (machine true "") open_project mapping fresh).0 ≡ ok tt)
    × (detail_of "unknown" (record { stdout = " no\n"; stderr = ""; returncode = pos 1 }) ≡ "no")
    × (not_found
          (machine true "")
          (record { stdout = ""; stderr = "x not found"; returncode = pos 1 })
        ≡ true)
    × (already_exists
          (machine true "")
          (record { stdout = ""; stderr = "x not found"; returncode = pos 1 })
        ≡ false)
unfolding replace_existing published_url named_or_bound detail_of not_found already_exists has_text
    confirmed prime_sudo password_for demand_password destroy instance_exists instance_record
    find_named elements dict_of instance_name str_of run show get starts_with strip strip_by reverse
    drop_while is_space sanitize_name safe_text lower lower_char dash_runs dots_to_dashes render
    name parent parts any_char split split_onto take_chars or_none join Publish.hostname node_name
    told_by short_name address fixed_or_tailnet tailnet_address truthy or_empty rstrip_by
    is_relative_to ask
replaced_vm = (refl, refl, refl, refl, refl)
