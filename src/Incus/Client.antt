-- ===== src/Incus/Client.antt =====
-- incus.py: the commands of `Incus` and its queries.
pub mod Access
use derico_sandbox.Config.Load.{str_of}
use derico_sandbox.Errors.{
  Error, Result, bad_instances, bad_network_feature, bad_projects, bad_state, broken_lookup, err,
  incus_error, is_admin, not_confined, not_restricted, ok, probe_failed,
}
use derico_sandbox.Incus.Values.{dict_of, elements, find_named, named_records, names_of}
use derico_sandbox.Incus.Version.{Version, acl_project_lookup_is_broken, parse_server_version}
use derico_sandbox.Json.{Value, fields, null, obj}
use derico_sandbox.Platform.{Platform}
use derico_sandbox.Prelude.{
  Bool, List, Option, String, [], all, any, contains, false, if◌then◌else◌, map, nat_Eq, none, not,
  some, string_Eq, true, ℕ, ◌&&◌, ◌<>◌, ◌==◌, ◌||◌, ◌∷◌,
}
use derico_sandbox.Prelude.Decimal.{show}
use derico_sandbox.Prelude.Dict.{Dict, get, values}
use derico_sandbox.Prelude.Text.{has_text, strip}
use derico_sandbox.Errors
use derico_sandbox.System.{
  Action, Output, System, failed, lift, return, run, throw, throw_if, when, ◌>>=◌, ◌>>◌,
}

-- `CONTROL_TIMEOUT`, in milliseconds
abbrev pub control_timeout : Option ℕ
control_timeout = some 30000

abbrev pub creds_volume : String
creds_volume = "sandboxsh-agent-creds"

-- `result.stderr.strip() or result.stdout.strip() or unknown`
unfoldable pub detail_of : String → Output → String
detail_of unknown r =
    if not (strip r.stderr == "")
    then strip r.stderr
    else if not (strip r.stdout == "")
    then strip r.stdout
    else unknown

abbrev pub no_detail : String
no_detail = "unknown Incus error"

abbrev pub probe_error : String → Output → Error
probe_error label r = incus_error (probe_failed label (detail_of no_detail r))

-- `f"{key}={value}"`
abbrev pub setting : String × String → String
setting (k, v) = k <> "=" <> v

abbrev pub is_some {ℓ} : {A : Type ℓ} → Option A → Bool
is_some none = false
is_some (some a) = true

abbrev is_member : Option String → List String → Bool
is_member none members = false
is_member (some user) members = contains members user

abbrev named : String → Option String → Bool
named expected none = false
named expected (some n) = n == expected

abbrev not_null : Option Value → Option Value
not_null (some null) = none
not_null v = v

-- `str(environment.get("server_version", ""))`
abbrev version_text : Platform → Option Value → String
version_text platform none = ""
version_text platform (some v) = str_of platform v

-- `expected in names and (admin_override or names == {expected})`
unfoldable pub is_confined : String → Bool → List (Option String) → Bool
is_confined expected override names =
    any (named expected) names && (override || all (named expected) names)

abbrev status_of : Option (Dict String Value) → Option Value
status_of none = none
status_of (some entry) = not_null (get entry "status")

-- The version, if the daemon can enforce an ACL or its version is not known.
unfoldable pub enforceable : Option Version → Result (Option Version)
enforceable none = ok none
enforceable (some (a, b, c)) =
    if acl_project_lookup_is_broken (a, b, c)
    then err (incus_error (broken_lookup (a ∷ b ∷ c ∷ [])))
    else ok (some (a, b, c))

unfoldable pub environment_version : System → Option Value → Result (Option Version)
environment_version system (some (obj fs)) =
    parse_server_version system (version_text system.platform (get (fields fs) "server_version"))
environment_version system _ = ok none

module _ (system : System) where
  -- `self.project`
  abbrev pub project : String
  project = "user-" <> show system.uid

  abbrev pub incus_argv : List String → List String
  incus_argv args = "incus" ∷ "--force-local" ∷ "--project" ∷ project ∷ args

  -- `Incus.command`
  abbrev pub command : List String → Bool → Option ℕ → Action Output
  command args check timeout = run system (incus_argv args) check timeout

  -- A command that is checked, and whose output is not read.
  abbrev pub call : List String → Action (Unit {0})
  call args = command args true none >>= λ out. return tt

  abbrev pub decoded : Error → Option Value → Action Value
  decoded raised none = throw raised
  decoded raised (some v) = return v

  abbrev parse_json : String → Error → Action Value
  parse_json s raised = decoded raised (system.loads s)

  abbrev output_text : Output → String
  output_text r = system.lower (r.stdout <> "\n" <> r.stderr)

  -- `_not_found`
  unfoldable pub not_found : Output → Bool
  not_found r = has_text (output_text r) "not found" || has_text (output_text r) "doesn't exist"

  -- `_already_exists`
  unfoldable pub already_exists : Output → Bool
  already_exists r = has_text (output_text r) "already exists"

  -- `payload.get("environment")`, and its version
  unfoldable pub version_of : Value → Result (Option Version)
  version_of payload =
      Errors.◌>>=◌ (dict_of payload) λ entry. environment_version system (get entry "environment")

  abbrev pub reported : Option Value → Action (Option Version)
  reported none = return none
  reported (some payload) = lift (version_of payload)

  -- `Incus.server_version`
  unfoldable pub server_version : Action (Option Version)
  server_version = do
    r ← command ("query" ∷ "/1.0" ∷ []) false control_timeout
    if failed r then return none else reported (system.loads r.stdout)

  -- `Incus.verify_acl_enforcement`
  unfoldable pub verify_acl_enforcement : Action (Option Version)
  verify_acl_enforcement = do version ← server_version; lift (enforceable version)

  unfoldable pub is_admin_user : Bool
  is_admin_user = elim system.admin_group [
    | none ↦ false
    | some (gid, members) ↦ contains system.groups gid || is_member system.user members
  ]

  -- `Incus.verify_host_access`
  unfoldable pub verify_host_access : Action String
  verify_host_access = do
    throw_if (is_admin_user && not system.allow_admin) (incus_error is_admin)
    r ← command ("project" ∷ "list" ∷ "--format=json" ∷ []) true control_timeout
    projects ← parse_json r.stdout (incus_error bad_projects)
    names ← lift (Errors.◌>>=◌ (elements projects) names_of)
    throw_if (not (is_confined project system.allow_admin names)) (incus_error not_confined)
    restricted ← command ("project" ∷ "get" ∷ project ∷ "restricted" ∷ []) true control_timeout
    throw_if (not (strip restricted.stdout == "true")) (incus_error not_restricted)
    feature ← command ("project" ∷ "get" ∷ project ∷ "features.networks" ∷ []) true control_timeout
    throw_if (not (contains ("" ∷ "false" ∷ []) (strip feature.stdout)))
        (incus_error bad_network_feature)
    version ← verify_acl_enforcement
    return project

  -- `Incus._instance_record`
  unfoldable pub instance_record : String → Action (Option (Dict String Value))
  instance_record instance_ = do
    r ← command ("list" ∷ instance_ ∷ "--format=json" ∷ []) false control_timeout
    throw_if (failed r) (probe_error ("instance " <> instance_) r)
    listing ← parse_json r.stdout (incus_error (bad_state instance_))
    lift (Errors.◌>>=◌ (elements listing) (find_named instance_))

  -- `Incus.exists`
  unfoldable pub instance_exists : String → Action Bool
  instance_exists instance_ = do record_ ← instance_record instance_; return (is_some record_)

  -- A query that succeeds, fails as not found, or fails otherwise: `image_exists`, `volume_exists`.
  abbrev probe : List String → String → Action Bool
  probe args label = do
    r ← command args false none
    throw_if (failed r && not (not_found r)) (probe_error label r)
    return (not (failed r))

  unfoldable pub image_exists : String → Action Bool
  image_exists image = probe ("image" ∷ "info" ∷ image ∷ []) ("image " <> image)

  unfoldable pub volume_exists : String → Action Bool
  volume_exists volume =
      probe ("storage" ∷ "volume" ∷ "show" ∷ system.pool ∷ volume ∷ [])
        ("storage volume " <> system.pool <> "/" <> volume)

  -- `Incus.list_instances`
  unfoldable pub list_instances : String → Action (List (Dict String Value))
  list_instances prefix = do
    r ← command ("list" ∷ prefix ∷ "--format=json" ∷ []) false none
    throw_if (failed r) (probe_error ("instances " <> prefix <> "*") r)
    records ← parse_json r.stdout (incus_error bad_instances)
    vs ← lift (elements records)
    return (named_records system.platform prefix vs)

  unfoldable pub copy_instance : String → String → Action (Unit {0})
  copy_instance source target = call ("copy" ∷ source ∷ target ∷ [])

  unfoldable pub rename : String → String → Action (Unit {0})
  rename source target = call ("rename" ∷ source ∷ target ∷ [])

  -- `Incus.delete_instance`
  unfoldable pub delete : String → Bool → Action (Unit {0})
  delete instance_ check = do
    r ← command ("delete" ∷ instance_ ∷ "--force" ∷ []) check none
    return tt

  -- `Incus.set_config`
  unfoldable pub write_config : String → Dict String String → Action (Unit {0})
  write_config instance_ values = call ("config" ∷ "set" ∷ instance_ ∷ map setting values)

  -- `Incus.image_property`
  unfoldable pub image_property : String → String → Action (Option String)
  image_property image property = do
    r ← command ("image" ∷ "get-property" ∷ image ∷ property ∷ []) false none
    throw_if (failed r && not (not_found r))
        (probe_error ("image " <> image <> " property " <> property) r)
    return (if failed r then none else some (strip r.stdout))

  -- `Incus.publish`
  unfoldable pub publish_image : String → String → Dict String String → Action (Unit {0})
  publish_image instance_ alias properties =
      call ("publish" ∷ instance_ ∷ "--alias" ∷ alias ∷ "--reuse" ∷ map setting properties)

  -- `Incus.ensure_credentials_volume`
  unfoldable pub ensure_credentials_volume : Action (Unit {0})
  ensure_credentials_volume = do
    there ← volume_exists creds_volume
    when (not there) (call ("storage" ∷ "volume" ∷ "create" ∷ system.pool ∷ creds_volume ∷ []))

  -- `Incus.instance_status`: JSON's null is `None`
  unfoldable pub instance_status : String → Action (Option Value)
  instance_status instance_ = do record_ ← instance_record instance_; return (status_of record_)
