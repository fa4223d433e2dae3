-- ===== src/Tests/Security.antt =====
-- Approvals, claims of host ports and policies of the sample project.
use mathlib.Core.Path.{subst}
use derico_sandbox.Security.Publications.{approved_publications, save_split, split_all, split_one}
use derico_sandbox.Security.Publications.Recorded.{
  approved_publications-is_recorded, approved_publications_silent, is_recorded,
}
use mathlib.Core.Bool.{false≢true}
use derico_sandbox.Config.Mounts.{approval_key}
use derico_sandbox.Config.Ports.{
  int_digits, parse_port, int_of_text, int_of, signed, check_port, approval_key as port_key,
}
use derico_sandbox.Config.Names.{
  dash_runs, sanitize_name, reject_unknown, safe_text, lower_char, lower, nth_char,
}
use derico_sandbox.FilePath.{render, parent, name, parts, is_relative_to}
use derico_sandbox.Prelude.Text.{
  join, take_chars, is_space, split, or_none, drop_chars, split_onto, strip_by, drop_while,
  starts_with, any_char, reverse, strip, ends_with, has_text,
}
use derico_sandbox.Prelude.Decimal.{show, digit_char}
use derico_sandbox.Prelude.Dict.{get, put, remove}
use derico_sandbox.Config.Firewall.{
  parse_firewall_entry, parse_entries, raw_entry, entry_protocol, entry_private, entry_ports,
  entry_host, parse_port_set,
}
use derico_sandbox.Config.Project.{
  instance_name, project_key, guest_set, guest_ports, dots_to_dashes, publishable,
}
use derico_sandbox.Errors.{Result, err, ok, port_taken, security_error, unapproved_mount}
use derico_sandbox.Prelude.{
  distinct, All, All-map_of, Bool-cases, String, [], any, ap, contains, false, if◌then◌else◌,
  nat_Eq, none, not, refl, some, string_Eq, true, ◌++◌, ◌==◌, ◌↔◌, ◌∷◌, ◌≡◌, ◌≢◌, eq_iff, filter,
  inl, inr, sym,
}
use derico_sandbox.Prelude.Sort.{sorted, insert_sorted}
use derico_sandbox.Security.Acl.{
  AclPolicy, allow_egress, allow_ingress, build_acl_policy, egress_rule, group_le, gather_trusted,
  open_policy, closed_policy, open_entry, add_entry, add_group, ingress_rules, ports_le, update,
  ports_eq, gather_project,
}
use derico_sandbox.Security.Acl.Egress.{
  build_acl_policy-allow_all, build_acl_policy-egress, build_acl_policy-IsPermitted, is_allow_all,
}
use derico_sandbox.Security.Acl.Destinations.{IsPermitted}
use derico_sandbox.Security.Acl.Groups.{entry_opens}
use derico_sandbox.Security.Acl.Rules.{IsPlain, rule_opens}
use derico_sandbox.Prelude.Split.{IsListable}
use derico_sandbox.Platform.{Network}
use derico_sandbox.Security.Approvals.{
  ensure_project_approvals, approve_mounts, firewall_key, review, consent, approve_entry,
  save_review, approve_mount, approve_entries,
}
use derico_sandbox.Security.Approvals.Records.{
  Covers, ensure_project_approvals-keeps_others, ensure_project_approvals_silent,
  ensure_project_approvals_twice,
}
use derico_sandbox.Security.Endpoints.{
  default_endpoints, host_endpoints, no_file, is_version_one, plain_entry, listed_endpoints,
  relabel,
}
use derico_sandbox.Security.Hosts.{
  Lookup, found, gai_error, addresses_of, address_le, validate_destination, strip_brackets,
  is_special, resolve_host, validate_all, hostname, is_bad_name,
}
use derico_sandbox.Security.Mounts.{
  assert_mounts_safe, overlaps, sensitive_paths, check_sensitive, assert_mount_safe,
}
use derico_sandbox.Security.Registry.Holders.{
  claim_host_ports-keeps_others, claim_host_ports-ok, holder, host_texts, release_host_ports-ok,
  unless,
}
use derico_sandbox.Tests.Samples.{host, platform, project, ledger, mapping}
use derico_sandbox.Security.Registry.{
  stored as registered, Owner, Registry, RegistryFile, claim_host_ports, load_registry,
  release_host_ports, foreign_owner, check_owners, claim_ports, claimant, wanted_ports, stale_ports,
  delete_ports, claimed,
}
use derico_sandbox.Security.Ledger.{
  stored, missing, Ledger, LedgerFile, approvals_of, granted, load_approvals, Approvals,
}

abbrev granted_file : LedgerFile
granted_file = stored ledger

first_run : ensure_project_approvals host true platform project missing ≡ (ok tt, granted_file)
unfolding ensure_project_approvals review assert_mounts_safe assert_mount_safe check_sensitive
    sensitive_paths overlaps is_relative_to parts split split_onto render join load_approvals
    approve_mounts approve_mount get approval_key digit_char show put approve_entries approve_entry
    consent firewall_key save_review
first_run = refl

ensure_project_approvals_twice_example :
    ensure_project_approvals host false platform project granted_file ≡ (ok tt, granted_file)
ensure_project_approvals_twice_example =
    ensure_project_approvals_twice host platform project true false missing granted_file first_run

refused_run :
    (ensure_project_approvals host false platform project missing).0
    ≡ err (security_error (unapproved_mount "/data" "/data"))
unfolding ensure_project_approvals review assert_mounts_safe assert_mount_safe check_sensitive
    sensitive_paths overlaps is_relative_to parts split split_onto render join load_approvals
    approve_mounts approve_mount get approval_key digit_char show put approve_entries approve_entry
    consent firewall_key save_review
refused_run = refl

ensure_project_approvals_silent_example :
    ((ensure_project_approvals host false platform project granted_file).1 ≡ granted_file)
    × ((ensure_project_approvals host false platform project granted_file).0 ≡ ok tt ↔ (
        (assert_mounts_safe platform host project.mounts ≡ ok tt)
        × (l : Ledger) × (load_approvals granted_file ≡ ok l)
        × Covers (approvals_of l (project_key project)) project))
ensure_project_approvals_silent_example =
    ensure_project_approvals_silent host platform project granted_file

other_project : "/home/dev/other/.sandboxsh.json" ≢ project_key project
unfolding render join
other_project h = false≢true ((eq_iff "/home/dev/other/.sandboxsh.json" (project_key project)).1 h)

ensure_project_approvals-keeps_others_example :
    granted
      (ensure_project_approvals host true platform project missing).1
      "/home/dev/other/.sandboxsh.json"
    ≡ granted missing "/home/dev/other/.sandboxsh.json"
ensure_project_approvals-keeps_others_example =
    ensure_project_approvals-keeps_others host platform project true missing
      "/home/dev/other/.sandboxsh.json" other_project

abbrev other_owner : Owner
other_owner = record {
  project = "/home/dev/other/.sandboxsh.json";
  instance_name = "other";
  guest = 80;
}

abbrev before_claim : Registry
before_claim = ("9090", other_owner) ∷ []

abbrev registry_after : Result (Unit {0}) × RegistryFile → Registry
registry_after (r, registered ports) = ports
registry_after _ = []

abbrev after_claim : Registry
after_claim =
    registry_after (claim_host_ports platform project (mapping ∷ []) (registered before_claim))

loaded : load_registry (registered before_claim) ≡ ok before_claim
unfolding load_registry
loaded = refl

claim :
    claim_host_ports platform project (mapping ∷ []) (registered before_claim)
    ≡ (ok tt, registered after_claim)
unfolding claim_host_ports load_registry check_owners foreign_owner get show claimant instance_name
    sanitize_name safe_text any_char name parent lower strip_by reverse drop_while dash_runs
    lower_char nth_char dots_to_dashes render digit_char put remove is_space join strip take_chars
    claim_ports claimed delete_ports stale_ports wanted_ports
claim = refl

claim_host_ports-ok_example :
    (ports' : Registry) × ((claim_host_ports platform project
        (mapping ∷ [])
        (registered before_claim)).1
      ≡ registered ports')
    × ((j : String)
        → holder ports' j ≡ (
            if contains (host_texts (mapping ∷ [])) j
            then some (project_key project)
            else unless (project_key project) (holder before_claim j)))
claim_host_ports-ok_example =
    claim_host_ports-ok platform project (mapping ∷ []) (registered before_claim) before_claim
      loaded (refl, tt) (ap (λ r. r.0) claim)

other_holder : holder before_claim "9090" ≡ some "/home/dev/other/.sandboxsh.json"
unfolding get
other_holder = refl

claim_host_ports-keeps_others_example :
    holder after_claim "9090" ≡ some "/home/dev/other/.sandboxsh.json"
claim_host_ports-keeps_others_example =
    claim_host_ports-keeps_others platform project (mapping ∷ []) (registered before_claim)
      before_claim after_claim "9090" "/home/dev/other/.sandboxsh.json" loaded (refl, tt) claim
      other_holder other_project

abbrev contested : Registry
contested = ("8080", other_owner) ∷ []

refused_claim :
    (claim_host_ports platform project (mapping ∷ []) (registered contested)).0
    ≡ err (security_error (port_taken 8080 "/home/dev/other/.sandboxsh.json" 80))
unfolding claim_host_ports load_registry check_owners foreign_owner get show render join
refused_claim = refl

release_host_ports-ok_example :
    (ports' : Registry) × (load_registry (release_host_ports project (registered before_claim)).1
      ≡ ok ports')
    × ((j : String) → holder ports' j ≡ unless (project_key project) (holder before_claim j))
release_host_ports-ok_example =
    release_host_ports-ok project (registered before_claim) before_claim loaded (refl, tt)

-- `example.org` alone resolves, so every built-in endpoint is left out.
abbrev lookup : String → Lookup
lookup name = if name == "example.org" then found ("203.0.113.7" ∷ []) else gai_error

abbrev policy_of : Result AclPolicy → AclPolicy
policy_of (ok p) = p
policy_of (err e) = record {
  description = "";
  ingress = [];
  egress = [];
  resolutions = [];
  unresolved_defaults = [];
}

abbrev pub policy : AclPolicy
policy = policy_of (build_acl_policy platform host lookup no_file project none)

built : build_acl_policy platform host lookup no_file project none ≡ ok policy
unfolding build_acl_policy host_endpoints gather_trusted default_endpoints resolve_host hostname
    strip_brackets starts_with strip strip_by reverse drop_while plain_entry is_space is_bad_name
    has_text any_char entry_host entry_ports entry_private entry_protocol parse_entries
    parse_firewall_entry parse_port_set raw_entry dash_runs lower lower_char nth_char reject_unknown
    safe_text sanitize_name check_port int_digits int_of int_of_text parse_port signed
    dots_to_dashes guest_ports guest_set instance_name name parent render digit_char show get put
    distinct insert_sorted sorted drop_chars ends_with join or_none take_chars add_entry add_group
    closed_policy egress_rule gather_project group_le ingress_rules open_entry open_policy ports_eq
    ports_le update is_version_one listed_endpoints relabel address_le addresses_of is_special
    validate_all validate_destination
built = refl

policy_rules :
    (policy.egress ≡ allow_egress "203.0.113.7" "tcp" "443" ∷ [])
    × (policy.ingress ≡ allow_ingress "3000" none ∷ [])
unfolding build_acl_policy host_endpoints gather_trusted default_endpoints resolve_host hostname
    strip_brackets starts_with strip strip_by reverse drop_while plain_entry is_space is_bad_name
    has_text any_char entry_host entry_ports entry_private entry_protocol parse_entries
    parse_firewall_entry parse_port_set raw_entry dash_runs lower lower_char nth_char reject_unknown
    safe_text sanitize_name check_port int_digits int_of int_of_text parse_port signed
    dots_to_dashes guest_ports guest_set instance_name name parent render digit_char show get put
    distinct insert_sorted sorted drop_chars ends_with join or_none take_chars add_entry add_group
    closed_policy egress_rule gather_project group_le ingress_rules open_entry open_policy ports_eq
    ports_le update is_version_one listed_endpoints relabel address_le addresses_of is_special
    validate_all validate_destination
policy_rules = (refl, refl)

no_endpoints : host_endpoints platform no_file ≡ ok []
unfolding host_endpoints
no_endpoints = refl

network-IsListable : (a : String) (n : Network) → platform.ip_network a ≡ some n → IsListable a
unfolding any_char
network-IsListable a n h = elim (Bool-cases (a == "203.0.113.7")) [
  | inl known ↦ subst IsListable (sym ((eq_iff a "203.0.113.7").0 known)) (refl, refl)
  | inr other ↦ let h1 = rw other at h in cc
]

endpoints-IsPlain :
    All (IsPlain platform lookup) ((default_endpoints ++ []) ++ project.firewall_allow)
endpoints-IsPlain =
    All-map_of (IsPermitted platform lookup) (IsPlain platform lookup)
      ((default_endpoints ++ []) ++ project.firewall_allow)
      (λ e permitted addresses r.
        All-map_of _ IsListable addresses (λ a (n, known, _). network-IsListable a n known)
          (permitted addresses r))
      (build_acl_policy-IsPermitted platform host lookup no_file project none policy [] refl
        no_endpoints built)

build_acl_policy-egress_example :
    any (rule_opens "tcp" 443 "203.0.113.7") policy.egress
    ≡ any
        (entry_opens "tcp" 443 "203.0.113.7" platform lookup)
        ((default_endpoints ++ []) ++ project.firewall_allow)
build_acl_policy-egress_example =
    build_acl_policy-egress platform host lookup no_file project none policy [] "tcp" 443
      "203.0.113.7" refl no_endpoints built endpoints-IsPlain

build_acl_policy-IsPermitted_example :
    All (IsPermitted platform lookup) ((default_endpoints ++ []) ++ project.firewall_allow)
build_acl_policy-IsPermitted_example =
    build_acl_policy-IsPermitted platform host lookup no_file project none policy [] refl
      no_endpoints built

build_acl_policy-allow_all_example :
    (any is_allow_all policy.egress ≡ not project.firewall_enabled)
    × (project.firewall_enabled ≡ false → host.allow_open_network ≡ true)
build_acl_policy-allow_all_example =
    build_acl_policy-allow_all platform host lookup no_file project none policy built

ledger_read : load_approvals granted_file ≡ ok ledger
unfolding load_approvals
ledger_read = refl

approved_publications_silent_example : approved_publications host false project granted_file ≡ (
  ok (
    filter (is_recorded []) (publishable project),
    filter (λ m. not (is_recorded [] m)) (publishable project),
  ),
  granted_file,
)
unfolding get render join
approved_publications_silent_example =
    approved_publications_silent host project granted_file ledger ledger_read

abbrev publishing : Approvals
publishing = record {
  mounts = "/data|/data|ro" ∷ [];
  firewall = "tcp|example.org|443|public" ∷ [];
  publish = "3000|8080" ∷ [];
}

abbrev published_file : LedgerFile
published_file = stored (("/home/dev/app/.sandboxsh.json", publishing) ∷ [])

published_run :
    approved_publications host true project granted_file ≡ (ok (mapping ∷ [], []), published_file)
unfolding approved_publications publishable load_approvals split_all split_one get render join
    save_split put port_key show
published_run = refl

approved_publications-is_recorded_example :
    All
      (λ m. is_recorded (granted published_file (project_key project)).publish m ≡ true)
      (mapping ∷ [])
approved_publications-is_recorded_example =
    approved_publications-is_recorded host true project granted_file published_file (mapping ∷ [])
      [] published_run
