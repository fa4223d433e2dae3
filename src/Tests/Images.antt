-- ===== src/Tests/Images.antt =====
-- Builds, and the commands on the image, on the sample machine.
use derico_sandbox.Image.Workers.{
  boot_worker, build_project_config, build_stage, build_stages, copy_parent, fail_stage,
  init_worker, make_stage, new_worker, pinned_image, push_file, push_files, run_script, script_argv,
  worker_argv,
}
use derico_sandbox.Tests.Builds.{workshop, request}
use derico_sandbox.Tests.Machine.{machine, open_project, fresh as fresh_state}
use derico_sandbox.Image.BuildPlan.{BuildPlan, Verdict, fresh, warn}
use derico_sandbox.Image.Entries.{CacheEntry}
use derico_sandbox.Image.Report.{Row}
use derico_sandbox.Image.Plan.{PlanStep, Reason, no_entry, parent_changed}
use derico_sandbox.Image.Manifest.{empty_manifest}
use derico_sandbox.Image.Stages.{Stage, no_inputs, no_arguments}
use derico_sandbox.Incus.Images.{ResolvedImage}
use derico_sandbox.Cli.Images.{BuildOptions}
use derico_sandbox.Errors.{
  Result, ok, err, image_error, incus_error, lock_held, unresolved_image, stage_failed, crash,
  aborted,
}
use derico_sandbox.Json.{Value, text, obj, object}
use derico_sandbox.Prelude.{
  Bool, List, String, Option, ℕ, ◌≡◌, refl, true, false, some, none, ◌∷◌, [], map, length,
}
use derico_sandbox.Prelude.Int.{ℤ, pos}
use derico_sandbox.Prelude.Dict.{Dict}
use derico_sandbox.System.{return}
use mathlib.Core.Option
use derico_sandbox.Cli.Doctor.{
  access_project, ask_forwarding, check_access, check_bridge, check_command, check_forwarding,
  check_path, check_publishing, doctor_command, judge_forwarding, legacy_warning,
}
use derico_sandbox.Cli.Effective.{plan_command}
use derico_sandbox.Cli.Images.{
  chain_text, image_build_command, image_cache_list_command, image_cache_prune_command,
  image_status_command, legacy_line, padded_cells, pruned_line, report_build, report_policy,
  row_cells, table_line, widen, widths,
}
use derico_sandbox.Cli.Ports.{demand_password, password_for, prime_sudo, report_unresolved_defaults}
use derico_sandbox.Config.Load.{str_of}
use derico_sandbox.Config.Mounts.{parse_mount}
use derico_sandbox.Config.Names.{
  dash_runs, lower, lower_char, nth_char, reject_unknown, safe_text, sanitize_name,
}
use derico_sandbox.Config.Ports.{int_digits}
use derico_sandbox.Config.Project.{acl_name, dots_to_dashes, instance_name}
use derico_sandbox.Config.Tailscale.{parse_address}
use derico_sandbox.FilePath.{is_relative_to, name, parent, parts, render}
use derico_sandbox.Image.Build.{
  BuildReport, annotate_failure, build, carry_out, detach_all, guarded_chain, make_chain,
  publish_chain, publish_last, published_properties, release_acl, remove_leftover_workers,
  remove_workers, run_build, run_chain, run_plan, settle_build, settle_unwritten, write_build_acl,
}
use derico_sandbox.Image.BuildPlan.{
  age_verdict, build_key, days, entry_at, first_rebuild, is_noop, last_key, reused_entry, to_build,
}
use derico_sandbox.Image.Builder.{
  chain_source, chains, earlier_keys, from_resolved, held, helper_hashes, inputs_for, listed_steps,
  pin_source, plan, prune_chains, refresh_all, refresh_stage, requested_manifest, resolve_pin,
  save_manifest, set_generation, steps_for, stored_manifest,
}
use derico_sandbox.Image.Cache.{
  cache_entries, commit_worker, discard, legacy_builders, list_named, listed_all, listed_instance,
  perform, perform_all, prune_cache, shown_config, wall_time, workers,
}
use derico_sandbox.Image.Entries.{
  age_of, commit, entries, entries_onto, format_age, prune, prune_entries, stamps,
}
use derico_sandbox.Image.Keys.{
  declared_of, digest, generation_of, hashed_text, keys_from, material, stage_arguments,
  stage_generation_of, stage_key, stage_keys,
}
use derico_sandbox.Image.Manifest.{load_manifest}
use derico_sandbox.Image.Names.{
  is_slug, is_stage_file, is_stage_name, less_newline, stem, text_index, text_length, until_dot,
}
use derico_sandbox.Image.Plan.{hit_count, miss_reason, plan_from, plan_steps, siblings_of}
use derico_sandbox.Image.Report.{
  cache_rows, format_elapsed, key_text, plan_lines, row_of, status, step_line, verdict_lines,
}
use derico_sandbox.Image.Stages.{
  assemble, check_last, core_stages, load_core, load_stages, optional_stages, stage_of,
  verify_cloud_init_contract,
}
use derico_sandbox.Incus.Client.{
  copy_instance, delete, detail_of, enforceable, environment_version, image_exists, image_property,
  instance_record, is_admin_user, is_confined, list_instances, publish_image, rename,
  server_version, verify_acl_enforcement, verify_host_access, version_of, volume_exists,
  write_config,
}
use derico_sandbox.Incus.Devices.{add_devices}
use derico_sandbox.Incus.Guest.{
  copy_git_setting, guest_probe, pause, pin_allowlist, pin_document, pin_entries, preferred,
  unpin_allowlist, wait_for_agent, wait_for_agent_within, wait_for_guest_command, wait_for_mount,
  wait_loop,
}
use derico_sandbox.Incus.Images.{
  cached_image, find_image, info_field, info_fields, listed_image, match_image, partition,
  resolve_cached, resolve_vm_image, told_image,
}
use derico_sandbox.Incus.Network.{
  admin_acl_query, apply_acl, attach_acl, blocked_forwarding_remedy, bridge_gateway,
  bridge_gateway_from_kernel, create_acl, default_network, delete_acl, detach_acl, gateway_line,
  gateway_or_kernel, host_acl_name, nic_settings, override_nic, prepare_policy, set_nic,
  set_nic_key, write_acl,
}
use derico_sandbox.Incus.Values.{
  dict_of, elements, find_named, named_records, names_of, or_empty, truthy,
}
use derico_sandbox.Incus.Version.{
  acl_project_lookup_is_broken, leading_digits, padded, parse_server_version, version_numbers,
}
use derico_sandbox.Prelude.Decimal.{digit_char, show, show_int}
use derico_sandbox.Prelude.Dict.{get, put, remove}
use derico_sandbox.Prelude.{distinct}
use derico_sandbox.Prelude.Sort.{insert_sorted, sorted}
use derico_sandbox.Prelude.Text.{
  any_char, drop_chars, drop_while, ends_with, has_text, is_space, join, or_none, pad, reverse,
  rstrip_by, split, split_onto, starts_with, strip, strip_by, take_chars,
}
use derico_sandbox.Publish.{helper_available}
use derico_sandbox.Security.Acl.{
  add_entry, build_acl_policy, closed_policy, gather_project, gather_trusted, ingress_rules,
  open_entry, open_policy, ports_le,
}
use derico_sandbox.Security.Endpoints.{
  default_endpoints, host_endpoints, listed_endpoints, plain_entry,
}
use derico_sandbox.Security.Hosts.{
  address_le, addresses_of, is_bad_name, is_special, resolve_host, strip_brackets, validate_all,
  validate_destination,
}
use derico_sandbox.Security.Registry.{release_host_ports}
use derico_sandbox.System.{ask, exec, now, run, say_all}
use derico_sandbox.Security.Hosts

abbrev pub options : Bool → BuildOptions
options dry_run = record {
  request = request;
  no_publish = false;
  allow_stale = false;
  dry_run = dry_run;
  no_wait = false;
}

abbrev summary : Result BuildPlan → Option (ℤ × Bool × List Reason × ℕ)
summary (ok p) = some (
  p.manifest.generation,
  p.dirty_manifest,
  map (λ (s : PlanStep). s.reason) p.steps,
  hit_count p.steps,
)
summary (err e) = none

abbrev verdict_of : Result BuildPlan → Result (Verdict × Option ℕ)
verdict_of (ok p) = age_verdict p
verdict_of (err e) = err e

abbrev shown_of : Result BuildPlan → Result (List String)
shown_of (ok p) = plan_lines p
shown_of (err e) = err e

abbrev noop_of : Result BuildPlan → Option (Bool × Option String)
noop_of (ok p) = some (is_noop p, Option.map (λ (s : Stage). s.name) (first_rebuild p))
noop_of (err e) = none

abbrev lines_count : Result (List String) → Option ℕ
lines_count (ok ls) = some (length ls)
lines_count (err e) = none

abbrev built_of : Result BuildReport → Option (ℕ × Bool × Bool)
built_of (ok r) = some (r.rebuilt, r.published, r.dry_run)
built_of (err e) = none

-- A plan of a first build, with `--refresh`.
planned :
    (summary (plan (machine false "") workshop request fresh_state).0
      ≡ some (pos 1, true, no_entry ∷ parent_changed ∷ [], 0))
    × (verdict_of (plan (machine false "") workshop request fresh_state).0 ≡ ok (fresh, none))
    × (noop_of (plan (machine false "") workshop request fresh_state).0
        ≡ some (false, some "10-base"))
unfolding name last_key build_key is_noop to_build first_rebuild entry_at reused_entry age_verdict
    set_generation refresh_all refresh_stage stored_manifest helper_hashes resolve_pin pin_source
    inputs_for listed_steps steps_for requested_manifest plan listed_all list_named wall_time
    cache_entries entries_onto entries digest stage_key keys_from stage_keys load_manifest
    less_newline is_slug is_stage_name is_stage_file until_dot stem text_index siblings_of
    miss_reason plan_from plan_steps hit_count stage_of core_stages optional_stages check_last
    verify_cloud_init_contract assemble load_core load_stages list_instances image_property
    partition info_field info_fields told_image resolve_vm_image elements named_records show get put
    distinct sorted reverse starts_with ends_with has_text any_char is_space drop_while strip_by
    strip split_onto split take_chars drop_chars run
planned = (refl, refl, refl)

-- The lines of the plan.
plan_shown :
    lines_count (shown_of (plan (machine false "") workshop request fresh_state).0) ≡ some 3
unfolding name last_key build_key is_noop entry_at reused_entry age_verdict set_generation
    refresh_all refresh_stage stored_manifest helper_hashes resolve_pin pin_source inputs_for
    listed_steps steps_for requested_manifest plan listed_all list_named wall_time cache_entries
    entries_onto entries digest stage_key keys_from stage_keys load_manifest less_newline is_slug
    is_stage_name is_stage_file until_dot stem text_index plan_from plan_steps hit_count
    verdict_lines plan_lines stage_of core_stages optional_stages check_last
    verify_cloud_init_contract assemble load_core load_stages list_instances image_property
    partition info_field info_fields told_image resolve_vm_image elements named_records show get put
    distinct sorted reverse starts_with ends_with has_text any_char is_space drop_while strip_by
    strip split_onto split take_chars drop_chars run
plan_shown = refl

-- A build makes both stages and publishes; a dry run and a lock that is held do nothing.
built :
    (built_of
        (build (machine false "") workshop request false true false true (return tt) fresh_state).0
      ≡ some (2, true, false))
    × (built_of
          (build (machine false "") workshop request false true true true (return tt) fresh_state).0
        ≡ some (0, false, true))
    × ((build (machine false "") workshop request false true false false (return tt) fresh_state).0
        ≡ err (image_error lock_held))
unfolding safe_text dash_runs lower_char lower sanitize_name dots_to_dashes instance_name acl_name
    render name parent pinned_image worker_argv published_properties build_project_config detach_all
    release_acl remove_workers remove_leftover_workers init_worker push_file push_files script_argv
    boot_worker run_script copy_parent make_stage fail_stage new_worker build_stage build_stages
    publish_chain publish_last annotate_failure settle_build settle_unwritten make_chain
    write_build_acl guarded_chain run_chain run_plan run_build carry_out build last_key build_key
    is_noop to_build first_rebuild entry_at reused_entry days age_verdict from_resolved
    set_generation refresh_all refresh_stage stored_manifest save_manifest helper_hashes resolve_pin
    pin_source inputs_for listed_steps steps_for requested_manifest plan earlier_keys held
    prune_chains listed_all list_named workers legacy_builders perform perform_all discard wall_time
    cache_entries commit_worker entries_onto entries stamps commit prune stage_arguments hashed_text
    digest generation_of stage_generation_of declared_of material stage_key keys_from stage_keys
    load_manifest less_newline is_slug is_stage_name is_stage_file until_dot stem text_index
    siblings_of miss_reason plan_from plan_steps hit_count key_text step_line verdict_lines
    plan_lines stage_of core_stages optional_stages check_last verify_cloud_init_contract assemble
    load_core load_stages volume_exists list_instances copy_instance rename delete write_config
    image_property publish_image add_devices preferred pin_entries pin_document guest_probe pause
    wait_loop wait_for_guest_command wait_for_agent wait_for_agent_within wait_for_mount
    pin_allowlist unpin_allowlist copy_git_setting partition info_field info_fields told_image
    resolve_cached resolve_vm_image nic_settings host_acl_name admin_acl_query default_network
    gateway_line bridge_gateway_from_kernel gateway_or_kernel bridge_gateway prepare_policy
    create_acl write_acl apply_acl set_nic_key set_nic override_nic attach_acl detach_acl delete_acl
    elements dict_of named_records padded digit_char show show_int get put remove distinct
    insert_sorted sorted reverse starts_with ends_with has_text any_char is_space drop_while
    strip_by rstrip_by strip split_onto split join take_chars drop_chars helper_available
    Hosts.hostname add_entry open_entry gather_trusted gather_project closed_policy open_policy
    build_acl_policy plain_entry default_endpoints listed_endpoints host_endpoints strip_brackets
    is_bad_name address_le addresses_of resolve_host is_special validate_destination validate_all
    release_host_ports say_all run exec now
built = (refl, refl, refl)

-- `image build`.
image_built :
    (image_build_command (machine false "") workshop (options false) fresh_state).0 ≡ ok tt
unfolding report_policy report_build image_build_command image_status_command
    report_unresolved_defaults demand_password password_for prime_sudo str_of parse_mount safe_text
    reject_unknown dash_runs nth_char lower_char lower sanitize_name int_digits dots_to_dashes
    instance_name acl_name parse_address render name parent is_relative_to parts pinned_image
    worker_argv published_properties build_project_config detach_all release_acl remove_workers
    remove_leftover_workers init_worker push_file push_files script_argv boot_worker run_script
    copy_parent make_stage fail_stage new_worker build_stage build_stages publish_chain publish_last
    annotate_failure settle_build settle_unwritten make_chain write_build_acl guarded_chain
    run_chain run_plan run_build carry_out build last_key build_key is_noop to_build first_rebuild
    entry_at reused_entry days age_verdict from_resolved set_generation refresh_all refresh_stage
    stored_manifest save_manifest helper_hashes resolve_pin pin_source inputs_for listed_steps
    steps_for requested_manifest plan earlier_keys held prune_chains listed_all list_named workers
    legacy_builders perform perform_all discard wall_time cache_entries commit_worker entries_onto
    entries stamps commit prune stage_arguments hashed_text digest generation_of stage_generation_of
    declared_of material stage_key keys_from stage_keys load_manifest less_newline is_slug
    is_stage_name is_stage_file until_dot stem text_index siblings_of miss_reason plan_from
    plan_steps hit_count key_text step_line verdict_lines plan_lines stage_of core_stages
    optional_stages check_last verify_cloud_init_contract assemble load_core load_stages detail_of
    is_confined enforceable environment_version version_of server_version verify_acl_enforcement
    is_admin_user verify_host_access instance_record volume_exists list_instances copy_instance
    rename delete write_config image_property publish_image add_devices preferred pin_entries
    pin_document guest_probe pause wait_loop wait_for_guest_command wait_for_agent
    wait_for_agent_within wait_for_mount pin_allowlist unpin_allowlist copy_git_setting partition
    info_field info_fields told_image resolve_cached resolve_vm_image nic_settings host_acl_name
    admin_acl_query default_network gateway_line bridge_gateway_from_kernel gateway_or_kernel
    bridge_gateway prepare_policy create_acl write_acl apply_acl set_nic_key set_nic override_nic
    attach_acl detach_acl delete_acl elements dict_of find_named names_of named_records padded
    acl_project_lookup_is_broken leading_digits version_numbers parse_server_version digit_char show
    show_int get put remove distinct insert_sorted sorted reverse starts_with ends_with has_text
    any_char is_space drop_while strip_by rstrip_by strip split_onto split join take_chars
    drop_chars helper_available Hosts.hostname add_entry open_entry gather_trusted gather_project
    ports_le ingress_rules closed_policy open_policy build_acl_policy plain_entry default_endpoints
    listed_endpoints host_endpoints strip_brackets is_bad_name address_le addresses_of resolve_host
    is_special validate_destination validate_all release_host_ports say_all run exec now ask
image_built = refl

-- `image status`, `image cache list` and `image cache prune`.
image_shown :
    ((image_status_command
        (machine false "")
        workshop
        "sandboxsh/base"
        "images:debian/13/cloud"
        fresh_state).0
      ≡ ok tt)
    × ((image_cache_list_command (machine false "") workshop "images:debian/13/cloud" fresh_state).0
        ≡ ok tt)
    × ((image_cache_prune_command
          (machine false "")
          workshop
          "images:debian/13/cloud"
          1
          false
          false
          fresh_state).0
        ≡ ok tt)
unfolding image_status_command image_cache_list_command image_cache_prune_command str_of int_digits
    name last_key days set_generation refresh_all refresh_stage stored_manifest helper_hashes
    resolve_pin pin_source inputs_for listed_steps steps_for requested_manifest plan chain_source
    chains held prune_chains listed_all list_named legacy_builders perform_all wall_time
    cache_entries prune_cache prune_entries entries_onto entries prune digest stage_key keys_from
    stage_keys load_manifest less_newline is_slug is_stage_name is_stage_file until_dot stem
    text_index cache_rows status stage_of core_stages optional_stages check_last
    verify_cloud_init_contract assemble load_core load_stages is_confined enforceable
    environment_version version_of server_version verify_acl_enforcement is_admin_user
    verify_host_access image_exists list_instances image_property partition info_field info_fields
    told_image resolve_vm_image elements dict_of names_of named_records padded
    acl_project_lookup_is_broken leading_digits version_numbers parse_server_version show get put
    distinct sorted reverse starts_with ends_with has_text any_char is_space drop_while strip_by
    strip split_onto split take_chars drop_chars say_all run
image_shown = (refl, refl, refl)

-- `doctor` and `plan`.
host_commands :
    ((doctor_command (machine false "") fresh_state).0 ≡ ok tt)
    × ((plan_command (machine false "") open_project fresh_state).0 ≡ ok tt)
unfolding check_command check_path judge_forwarding ask_forwarding check_forwarding check_bridge
    access_project check_access check_publishing doctor_command plan_command str_of safe_text
    dash_runs lower_char lower sanitize_name int_digits instance_name name parent legacy_builders
    is_confined enforceable environment_version version_of server_version verify_acl_enforcement
    is_admin_user verify_host_access list_instances default_network blocked_forwarding_remedy
    elements dict_of names_of named_records padded acl_project_lookup_is_broken leading_digits
    version_numbers parse_server_version show get reverse any_char is_space drop_while strip_by
    strip split_onto split helper_available build_acl_policy say_all run
host_commands = (refl, refl)

abbrev old_entry : CacheEntry
old_entry = record {
  key = "00000000000000aa";
  stage = "10-base";
  parent = none;
  source = "f00d";
  created = 0;
  generation = pos 0;
  build_allow = [];
  instance_name = "sandboxsh-cache-00000000000000aa";
  script = "s";
  inputs = "i";
  stage_generation = pos 0;
}

abbrev old_row : Row
old_row = row_of [] ("00000000000000aa" ∷ []) 60000000 90000000 ("00000000000000aa", old_entry)

-- The texts of a build, of a row and of its table.
texts :
    (format_elapsed 61000 ≡ "1m01s")
    × (row_cells old_row
        ≡ "00000000000000aa" ∷ "10-base" ∷ "-" ∷ "1m" ∷ "previous" ∷ "-"
          ∷ "sandboxsh-cache-00000000000000aa" ∷ [])
    × (table_line (4 ∷ 3 ∷ []) ("a" ∷ "b" ∷ []) ≡ "a     b")
    × (widths (("0123" ∷ []) ∷ []) ≡ 4 ∷ 5 ∷ 6 ∷ 3 ∷ 5 ∷ 11 ∷ 8 ∷ [])
    × (pruned_line ("k" ∷ []) ≡ "Pruned 1 cache entry.")
    × (verdict_lines 2 (warn, some 60000000)
        ≡ "warn     reused entry is 1m old (warn after 2d, refuse after 6d)" ∷ [])
    × (legacy_line "user-1" "x"
        ≡ "legacy builder x is left over from a build before stage caching; remove it with `incus --project user-1 delete x --force`")
    × (legacy_warning "user-1" "x"
        ≡ "WARN legacy image builder x is left over from a build before stage caching; remove it with `incus --project user-1 delete x --force`")
unfolding legacy_warning chain_text row_cells widen widths padded_cells table_line legacy_line
    pruned_line age_of format_age text_length verdict_lines format_elapsed row_of show reverse
    is_space drop_while rstrip_by join or_none pad
texts = (refl, refl, refl, refl, refl, refl, refl, refl)

abbrev stage_vm : Dict String Value
stage_vm = ("name", text "vm") ∷ ("config", obj (object (("k", text "v") ∷ []))) ∷ []

abbrev local_image : Value
local_image = obj (
    object (
      ("type", text "virtual-machine")
      ∷ ("update_source", obj (object (("alias", text "debian/13") ∷ [])))
      ∷ ("fingerprint", text "beef")
      ∷ []))

abbrev fingerprint_of : Result (Option ResolvedImage) → Result (Option String)
fingerprint_of (ok (some image)) = ok (some image.fingerprint)
fingerprint_of (ok none) = ok none
fingerprint_of (err e) = err e

-- What the listings of Incus are read as.
listings :
    (listed_instance (machine false "") stage_vm
      ≡ ok (record { name = "vm"; config = ("k", "v") ∷ [] }))
    × (fingerprint_of (find_image (machine false "") "debian/13" (local_image ∷ []))
        ≡ ok (some "beef"))
    × (fingerprint_of (find_image (machine false "") "debian/12" (local_image ∷ [])) ≡ ok none)
    × (partition "images:debian" ≡ some ("images", "debian"))
    × ((resolve_cached (machine false "") "debian" fresh_state).0
        ≡ err (incus_error unresolved_image))
unfolding str_of shown_config listed_instance partition listed_image match_image find_image
    cached_image resolve_cached dict_of truthy or_empty get run
listings = (refl, refl, refl, refl, refl)

abbrev stage : Stage
stage = record {
  name = "10-base";
  script = "stages" ∷ "10-base.sh" ∷ [];
  floating = true;
  inputs = no_inputs;
  inputs_label = "";
  arguments = no_arguments;
  files = [];
}

abbrev sample_plan : BuildPlan
sample_plan = record {
  alias = "a";
  source = "images:debian";
  pinned = record { fingerprint = "f00d"; architecture = ""; serial = ""; pinned = "" };
  inputs = record {
    source_fingerprint = "f00d";
    architecture = "";
    uid = 1;
    gid = 1;
    stages = [];
    helper_hashes = [];
    build_allow = [];
    generation = pos 0;
    stage_generations = [];
  };
  steps = [];
  published_key = none;
  manifest = empty_manifest;
  no_cache = false;
  now = 0;
  max_age_days = 30;
  dirty_manifest = false;
  entries = ("k", old_entry) ∷ [];
}

-- The hidden ends of a build: a failed stage, and its ACL.
failures :
    ((fail_stage (machine false "") workshop stage "w" false (crash aborted) fresh_state).0
      ≡ err (image_error (stage_failed "10-base" "w" false)))
    × ((settle_build
          (machine false "")
          workshop
          {X = Unit {0}}
          sample_plan
          (err (crash aborted), fresh_state)).0
        ≡ err (crash aborted))
    × ((legacy_builders (machine false "") fresh_state).0 ≡ ok [])
    × ((wait_for_agent_within (machine false "") 600000 "w" fresh_state).0 ≡ ok tt)
unfolding safe_text dash_runs lower_char lower sanitize_name dots_to_dashes instance_name acl_name
    name parent build_project_config detach_all release_acl fail_stage annotate_failure settle_build
    legacy_builders discard list_instances delete guest_probe wait_loop wait_for_guest_command
    wait_for_agent_within host_acl_name admin_acl_query default_network blocked_forwarding_remedy
    detach_acl delete_acl elements named_records show reverse any_char is_space drop_while strip_by
    strip take_chars run now
failures = (refl, refl, refl, refl)
