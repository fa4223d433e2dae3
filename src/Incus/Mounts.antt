-- ===== src/Incus/Mounts.antt =====
-- incus.py: the immutable stamp of an instance, and its workspace devices: `assert_immutable_config`,
-- `_legacy_fingerprint` and `sync_mounts`.
use derico_sandbox.Config.Load.{str_of}
use derico_sandbox.Config.Mounts.{Mount}
use derico_sandbox.Config.Ports.{int_digits}
use derico_sandbox.Config.Project.{
  ProjectConfig, immutable_fingerprint, instance_name, legacy_immutable_fingerprint,
}
use derico_sandbox.Errors.{
  Result, crash, device_failed, disappeared, err, incus_error, ok, settings_changed, value_error,
  type_error,
}
use derico_sandbox.FilePath.{FilePath}
use derico_sandbox.Incus.Client.{call, command, detail_of, instance_record, no_detail, setting}
use derico_sandbox.Incus.Values.{dict_of, is_text, or_empty}
use derico_sandbox.Json.{Value, null}
use derico_sandbox.Platform.{Platform}
use derico_sandbox.Prelude.{
  Bool, List, Option, String, [], contains, distinct, false, filter, if◌then◌else◌, leb, nat_Eq,
  none, not, select, some, string_Eq, suc, true, ℕ, ◌&&◌, ◌<>◌, ◌==◌, ◌||◌, ◌∷◌, length, map,
  nat_eq,
}
use derico_sandbox.Prelude.Decimal.{show}
use derico_sandbox.Prelude.Dict.{Dict, get, keys}
use derico_sandbox.Prelude.Sort.{sorted}
use derico_sandbox.Prelude.Text.{any_char, drop_chars, starts_with, str_le, strip}
use derico_sandbox.Errors
use mathlib.Core.Option
use derico_sandbox.FilePath
use derico_sandbox.Incus.Client.{is_some}
use derico_sandbox.System.{Action, System, failed, lift, return, throw, throw_if, ◌>>=◌, ◌>>◌}

-- `WORKSPACE_DEVICE_PREFIX`
abbrev pub workspace_prefix : String
workspace_prefix = "workspace-"

-- `_mount_device`
unfoldable pub mount_device : Mount → Dict String String
mount_device m =
    ("type", "disk")
    ∷ ("source", FilePath.render m.source)
    ∷ ("path", m.target)
    ∷ (if m.readonly then ("readonly", "true") ∷ [] else [])

-- `_device_args`
unfoldable pub device_args : Dict String String → List String
device_args device = select (λ (e : String × String). not (e.0 == "type")) setting device

abbrev pub field_text : Dict String String → String → String
field_text d k = Option.get_or (get d k) ""

abbrev same_flag : Bool → Bool → Bool
same_flag a b = if a then b else not b

-- `_same_disk`, of a device with the keys of `_mount_device`
unfoldable pub same_disk : Dict String Value → Dict String String → Bool
same_disk current wanted =
    is_text (field_text wanted "source") (get current "source")
    && is_text (field_text wanted "path") (get current "path")
    && same_flag (is_text "true" (get current "readonly")) (field_text wanted "readonly" == "true")

-- `desired`, from the index on
unfoldable pub desired_from : ℕ → List Mount → Dict String (Dict String String)
desired_from index [] = []
desired_from index (m ∷ ms) =
    (workspace_prefix <> show index, mount_device m) ∷ desired_from (suc index) ms

unfoldable pub desired_devices : ProjectConfig → Dict String (Dict String String)
desired_devices config = desired_from 0 config.mounts

-- `existing`
unfoldable pub workspace_devices : Dict String Value → Dict String Value
workspace_devices devices =
    filter (λ (e : String × Value). starts_with e.0 workspace_prefix) devices

-- `sorted(set(existing) - set(desired))`
unfoldable pub stale_names : List String → List String → List String
stale_names existing desired =
    sorted str_le (distinct (filter (λ n. not (contains desired n)) existing))

-- `(record or {}).get("devices") or {}`, and its items
unfoldable pub devices_of : System → Option (Dict String Value) → Result (Dict String Value)
devices_of system none = ok []
devices_of system (some entry) = or_empty system (get entry "devices")

-- `suffix.isdigit()`
abbrev is_digits : System → String → Bool
is_digits system s = not (s == "") && not (any_char (λ c. not (system.is_digit c)) s)

-- `indexed`: `int` refuses a digit that is not decimal.
unfoldable pub indexed_devices : System → Dict String Value → Result (List (ℕ × Value))
indexed_devices system [] = ok []
indexed_devices system ((name, device) ∷ rest) =
    let suffix = drop_chars 10 name in
    let later = indexed_devices system rest in
    let indexed : Result (List (ℕ × Value)) = elim (int_digits system.platform true 0 suffix) [
      | some n ↦ Errors.◌>>=◌ later λ more. ok ((n, device) ∷ more)
      | none ↦ err (crash value_error)
    ] in
    if not (starts_with name workspace_prefix) || not (is_digits system suffix)
    then later
    else indexed

abbrev text_or_empty : Platform → Option Value → String
text_or_empty platform none = ""
text_or_empty platform (some v) = str_of platform v

abbrev path_or : Platform → String → Option Value → String
path_or platform device none = device
path_or platform device (some v) = str_of platform v

-- `existing[name].get("path", name)`
unfoldable pub removed_path : Platform → String → Option Value → Result String
removed_path platform device none = ok device
removed_path platform device (some v) =
    Errors.◌>>=◌ (dict_of v) λ d. ok (path_or platform device (get d "path"))

-- `existing.get(name)`, whose `get` is called
unfoldable pub device_dict : Option Value → Result (Option (Dict String Value))
device_dict none = ok none
device_dict (some null) = ok none
device_dict (some v) = Errors.◌>>=◌ (dict_of v) λ d. ok (some d)

-- The rows of the old format. (A source or a path that is not a text would be written as it is.)
unfoldable pub mount_rows : Platform → List (ℕ × Value) → Result (List (String × String × Bool))
mount_rows platform [] = ok []
mount_rows platform ((n, device) ∷ rest) = Errors.◌>>=◌ (dict_of device) λ d.
    Errors.◌>>=◌ (mount_rows platform rest) λ rows. ok (
      (
        text_or_empty platform (get d "source"),
        text_or_empty platform (get d "path"),
        is_text "true" (get d "readonly"),
      )
      ∷ rows)

abbrev index_of : ℕ × Value → ℕ
index_of (n, device) = n

module _ (system : System) where
  -- `sorted` compares two devices at one index, and dictionaries have no order.
  unfoldable pub legacy_rows : Option (Dict String Value) → Result (List (String × String × Bool))
  legacy_rows entry = Errors.◌>>=◌ (devices_of system entry) λ devices.
      Errors.◌>>=◌ (indexed_devices system devices) λ indexed.
        if not (nat_eq (length (distinct (map index_of indexed))) (length indexed))
        then err (crash type_error)
        else mount_rows system.platform (sorted (λ (a b : ℕ × Value). leb a.0 b.0) indexed)

  -- `Incus._legacy_fingerprint`
  unfoldable pub legacy_fingerprint : ProjectConfig → Action String
  legacy_fingerprint config = do
    instance_ ← lift (instance_name system.platform config)
    entry ← instance_record system instance_
    rows ← lift (legacy_rows entry)
    return (legacy_immutable_fingerprint system.platform config rows)

  abbrev immutable_key : String
  immutable_key = "user.sandboxsh.immutable"

  -- `Incus.assert_immutable_config`
  unfoldable pub assert_immutable_config : ProjectConfig → Action (Unit {0})
  assert_immutable_config config = do
    instance_ ← lift (instance_name system.platform config)
    r ← command system ("config" ∷ "get" ∷ instance_ ∷ immutable_key ∷ []) false none
    let actual : String = if failed r then "" else strip r.stdout
    let stamp = immutable_fingerprint system.platform config
    let restamp = call system ("config" ∷ "set" ∷ instance_ ∷ (immutable_key <> "=" <> stamp) ∷ [])
    let upgrade : Action (Unit {0}) = legacy_fingerprint config >>= λ legacy.
        if actual == legacy then restamp else throw (incus_error settings_changed)
    if actual == stamp
        then return tt
        else if actual == ""
        then throw (incus_error settings_changed)
        else upgrade

  -- `Incus._device_command`
  unfoldable pub device_command : String → String → String → List String → Action (Unit {0})
  device_command instance_ action device args = do
    r ← command system ("config" ∷ "device" ∷ action ∷ instance_ ∷ device ∷ args) false none
    throw_if (failed r) (incus_error (device_failed action device (detail_of no_detail r)))

  unfoldable pub remove_device : String → Dict String Value → String → Action String
  remove_device instance_ existing device = do
    device_command instance_ "remove" device []
    lift (removed_path system.platform device (get existing device))

  -- The first loop of `sync_mounts`.
  unfoldable pub remove_devices : String → Dict String Value → List String → Action (List String)
  remove_devices instance_ existing [] = return []
  remove_devices instance_ existing (device ∷ rest) = do
    path ← remove_device instance_ existing device
    paths ← remove_devices instance_ existing rest
    return (path ∷ paths)

  abbrev add_device : String → String → Dict String String → Action (Unit {0})
  add_device instance_ device wanted =
      device_command instance_ "add" device ("disk" ∷ device_args wanted)

  -- The second loop, for one device: whether it was attached.
  unfoldable pub attach_device :
      String → String → Dict String String → Option (Dict String Value) → Action Bool
  attach_device instance_ device wanted none = add_device instance_ device wanted >> return true
  attach_device instance_ device wanted (some current) =
      let replace = do
        device_command instance_ "remove" device []
        add_device instance_ device wanted
        return true
      in if same_disk current wanted then return false else replace

  unfoldable pub bring_device :
      String → Dict String Value → String → Dict String String → Action Bool
  bring_device instance_ existing device wanted = do
    current ← lift (device_dict (get existing device))
    attach_device instance_ device wanted current

  unfoldable pub attach_devices :
      String → Dict String Value → Dict String (Dict String String) → Action (List String)
  attach_devices instance_ existing [] = return []
  attach_devices instance_ existing ((device, wanted) ∷ rest) = do
    attached ← bring_device instance_ existing device wanted
    paths ← attach_devices instance_ existing rest
    return (if attached then field_text wanted "path" ∷ paths else paths)

  -- `Incus.sync_mounts`
  unfoldable pub sync_mounts : ProjectConfig → Action (List String × List String)
  sync_mounts config = do
    instance_ ← lift (instance_name system.platform config)
    entry ← instance_record system instance_
    throw_if (not (is_some entry)) (incus_error (disappeared instance_))
    devices ← lift (devices_of system entry)
    let existing = workspace_devices devices
    let desired = desired_devices config
    removed ← remove_devices instance_ existing (stale_names (keys existing) (keys desired))
    attached ← attach_devices instance_ existing desired
    return (attached, removed)
