-- ===== src/Errors.antt =====
-- errors.py. A raised exception is a value: one constructor for each place that raises, with the values
-- that its message shows. `crash` is an exception that is no `SandboxshError`, so that `handled` of
-- cli.py does not turn it into a message.
use Prim.Native.Char.{code}
use derico_sandbox.Prelude.{ℕ, String, List, ◌≡◌, Bool, true, false, refl, inl, inr, ◌⊎◌}
use derico_sandbox.Prelude.Int.{ℤ}

pub data Crash : Type 0 where
  overflow_error type_error value_error unicode_encode_error stop_iteration aborted : Crash
  attribute_error file_not_found assertion_error : Crash
  -- the fuel of a loop has run out: of the model only
  out_of_fuel : Crash

pub data ConfigError : Type 0 where
  unsafe_text : String → ConfigError
  unknown_fields : String → List String → ConfigError
  invalid_size : String → ConfigError
  empty_name : ConfigError
  not_a_port port_range : String → ConfigError
  missing_guest bad_tailnet : ℕ → ConfigError
  ports_not_array : ConfigError
  duplicate_guest duplicate_host : ℕ → ConfigError
  bad_tailscale bad_tailscale_enabled bad_tailscale_address : ConfigError
  not_an_address : String → ConfigError
  dirs_not_array : ConfigError
  bad_dir_path bad_dir_ro bad_dir_target bad_dir relative_target : ℕ → ConfigError
  missing_source duplicate_target : String → ConfigError
  root_not_mounted root_read_only : ConfigError
  bad_entry bad_host bad_protocol bad_private bad_ports : String → ConfigError
  root_not_object missing_name bad_workdir : ConfigError
  firewall_not_object bad_firewall_enabled allow_not_array : ConfigError
  both_limits resources_not_object bad_cpus : ConfigError
  bad_memory bad_disk : String → ConfigError
  bad_image bad_credentials : ConfigError

pub data SecurityError : Type 0 where
  unreadable_ledger unsupported_ledger : SecurityError
  unreadable_registry unsupported_registry : SecurityError
  unreadable_endpoints unsupported_endpoints endpoints_not_array : SecurityError
  invalid_endpoint : ConfigError → SecurityError
  mount_of_root : SecurityError
  sensitive_mount : String → SecurityError
  unapproved_mount : String → String → SecurityError
  mount_denied : SecurityError
  unapproved_endpoint : String → List ℕ → SecurityError
  endpoint_denied : SecurityError
  port_taken : ℕ → String → ℕ → SecurityError
  bad_firewall_host : String → SecurityError
  cannot_resolve : String → SecurityError
  no_addresses : String → SecurityError
  invalid_address special_use not_public : String → String → SecurityError
  open_network_blocked : SecurityError

pub data ImageError : Type 0 where
  no_stage_directory : ImageError
  bad_stage_name bad_optional_name missing_stage : String → ImageError
  first_stage last_stage : ImageError
  repeated_stages : List String → ImageError
  no_cloud_init_disable : String → ImageError
  no_cloud_init_line : String → String → ImageError
  clean_before_enable : String → ImageError
  negative_generation : ImageError
  unknown_stage : String → List String → ImageError
  lock_held : ImageError
  missing_helper : String → ImageError
  -- the age ceiling in days
  stale_entry : ℕ → ImageError
  -- the pinned source, and what Incus wrote
  no_worker : String → String → ImageError
  -- the stage, its worker, and whether the worker is kept
  stage_failed : String → String → Bool → ImageError

pub data IncusError : Type 0 where
  -- the version that cannot enforce an ACL
  broken_lookup : List ℕ → IncusError
  is_admin bad_projects not_confined not_restricted bad_network_feature : IncusError
  -- `_probe_error`: the label, and what Incus wrote
  probe_failed : String → String → IncusError
  bad_state : String → IncusError
  bad_instances unresolved_image settings_changed : IncusError
  -- an action on a device, its name, and what Incus wrote
  device_failed : String → String → String → IncusError
  disappeared disappeared_before_start not_deleted : String → IncusError
  wait_timed_out : String → IncusError
  no_network no_gateway missing_image disk_too_small : IncusError
  no_compose socket_visible no_command : IncusError

pub data PublishError : Type 0 where
  no_tailscale no_tailnet_address no_helper : PublishError
  cannot_publish cannot_withdraw : String → PublishError

pub data CliError : Type 0 where
  -- what the host's sudo is required for
  sudo_required : String → CliError
  no_vm_address not_running destroy_cancelled recreate_cancelled reset_cancelled : CliError
  undeclared_port : ℕ → CliError
  cannot_reset : String → CliError
  absent_image : String → CliError
  problems_found : ℕ → CliError

pub data Error : Type 0 where
  config_error : ConfigError → Error
  security_error : SecurityError → Error
  image_error : ImageError → Error
  incus_error : IncusError → Error
  publish_error : PublishError → Error
  cli_error : CliError → Error
  -- `CommandError`: the command, its return code and what it wrote; and `CommandTimeoutError`
  command_error : List String → ℤ → String → Error
  command_timeout : List String → Error
  crash : Crash → Error

-- What a call gives: the exception that it raises, or the value that it returns.
pub data Result {ℓ} (X : Type ℓ) : Type ℓ where
  err : Error → Result X
  ok : X → Result X

-- The next statement runs only if the first one has not raised.
infixl 5 ◌>>=◌ ◌>>◌
abbrev pub ◌>>=◌ {ℓ κ} : {X : Type ℓ} {Y : Type κ} → Result X → (X → Result Y) → Result Y
err raised >>= next = err raised
ok x >>= next = next x

abbrev pub ◌>>◌ {ℓ κ} : {X : Type ℓ} {Y : Type κ} → Result X → Result Y → Result Y
first >> next = first >>= λ _. next

-- `if not test: raise ConfigError(...)`
abbrev pub ensure : Bool → ConfigError → Result (Unit {0})
ensure true e = ok tt
ensure false e = err (config_error e)

-- `if test: raise ConfigError(...)`
abbrev pub refuse : Bool → ConfigError → Result (Unit {0})
refuse true e = err (config_error e)
refuse false e = ok tt

-- `except SandboxshError`: a crash passes through.
abbrev pub is_handled : Error → Bool
is_handled (crash c) = false
is_handled (config_error e) = true
is_handled (security_error e) = true
is_handled (image_error e) = true
is_handled (incus_error e) = true
is_handled (publish_error e) = true
is_handled (cli_error e) = true
is_handled (command_error args code output) = true
is_handled (command_timeout args) = true

-- Two statements that return: the first one has returned, and the second one with its value.
pub >>=-eq-ok {ℓ κ} :
    {X : Type ℓ} {Y : Type κ} (first : Result X) (next : X → Result Y) {y : Y}
    → (first >>= next) ≡ ok y
    → (x : X) × (first ≡ ok x) × (next x ≡ ok y)
>>=-eq-ok (err raised) next h = cc
>>=-eq-ok (ok x) next h = (x, refl, h)

pub ok_injective {ℓ} : {A : Type ℓ} {a b : A} → ok a ≡ ok b → a ≡ b
ok_injective h = cc

pub Result-cases {ℓ} :
    {A : Type ℓ} (r : Result A) → ((a : A) × (r ≡ ok a)) ⊎ ((e : Error) × (r ≡ err e))
Result-cases (ok a) = inl (a, refl)
Result-cases (err e) = inr (e, refl)

-- `if test: raise error`
abbrev pub reject : Bool → Error → Result (Unit {0})
reject true e = err e
reject false e = ok tt
