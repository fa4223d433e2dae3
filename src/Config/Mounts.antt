-- ===== src/Config/Mounts.antt =====
-- config.py: `Mount`, `_is_relative_to` and `_parse_mounts`.
pub mod Targets
pub mod Accepted
use Prim.Native.Char.{code}
use derico_sandbox.Config.Names.{reject_unknown, safe_text}
use derico_sandbox.Errors.{
  Result, bad_dir, bad_dir_path, bad_dir_ro, bad_dir_target, config_error, dirs_not_array,
  duplicate_target, ensure, err, missing_source, ok, refuse, relative_target, root_not_mounted,
  root_read_only, ◌>>◌, ◌>>=◌,
}
use derico_sandbox.Json.{Value, arr, bool, cons, fields, items, null, obj, text}
use derico_sandbox.Platform.{Platform}
use derico_sandbox.Prelude.{
  Bool, List, Option, String, [], contains, false, find?, if◌then◌else◌, length, nat_Eq, nat_eq,
  none, not, some, string_Eq, suc, zero, ℕ, ◌+◌, ◌<>◌, ◌||◌, ◌∷◌, ◌==◌,
}
use derico_sandbox.Prelude.Decimal.{show}
use derico_sandbox.Prelude.Dict.{Dict, get}
use derico_sandbox.Prelude.Text.{starts_with, rstrip_by}
use derico_sandbox.FilePath
use derico_sandbox.FilePath.{FilePath, path_eq}

pub record Mount : Type 0 where
  pub source : FilePath
  pub target : String
  pub readonly : Bool
  pub inside_project : Bool

-- `Mount.approval_key`
unfoldable pub approval_key : Mount → String
approval_key m =
    FilePath.render m.source <> "|" <> m.target <> "|" <> (if m.readonly then "ro" else "rw")

-- `source_text`, `readonly` and `target_text` of one entry; an empty target counts as none.
pub record RawMount : Type 0 where
  pub source_text : String
  pub readonly : Bool
  pub target_text : Option String

unfoldable pub mount_path : Option Value → ℕ → Result String
mount_path (some (text s)) index = if s == "" then err (config_error (bad_dir_path index)) else ok s
mount_path _ index = err (config_error (bad_dir_path index))

unfoldable pub mount_readonly : Option Value → ℕ → Result Bool
mount_readonly none index = ok false
mount_readonly (some (bool b)) index = ok b
mount_readonly (some _) index = err (config_error (bad_dir_ro index))

unfoldable pub mount_target : Option Value → ℕ → Result (Option String)
mount_target none index = ok none
mount_target (some null) index = ok none
mount_target (some (text s)) index = ok (if s == "" then none else some s)
mount_target (some _) index = err (config_error (bad_dir_target index))

unfoldable pub raw_mount : Value → ℕ → Result RawMount
raw_mount (text s) index = ok (record { source_text = s; readonly = false; target_text = none })
raw_mount (obj fs) index = do
  let d = fields fs
  reject_unknown d ("path" ∷ "ro" ∷ "target" ∷ []) ("dirs[" <> show index <> "]")
  source_text ← mount_path (get d "path") index
  readonly ← mount_readonly (get d "ro") index
  target_text ← mount_target (get d "target") index
  ok (record { source_text = source_text; readonly = readonly; target_text = target_text })
raw_mount _ index = err (config_error (bad_dir index))

-- The names that a mount without a target may take: the base name, then `-2`, `-3` and so on.
unfoldable pub candidate : String → ℕ → String
candidate base zero = "/workspaces/" <> base
candidate base (suc k) = "/workspaces/" <> base <> "-" <> show (k + 2)

-- The `while` from the candidate `k` on. With as many rounds of fuel as there are targets in use one
-- of the candidates is free: `free_target_lem` of Mounts/Targets.
unfoldable pub free_target : String → List String → ℕ → ℕ → String
free_target base used k zero = candidate base k
free_target base used k (suc fuel) =
    let next = free_target base used (suc k) fuel in
    if contains used (candidate base k) then next else candidate base k

unfoldable pub given_target : Platform → String → ℕ → Result String
given_target platform target index = do
  safe_text platform target ("dirs[" <> show index <> "].target")
  refuse (not (starts_with target "/") || contains (FilePath.parts target) "..")
      (relative_target index)
  let stripped = rstrip_by (λ c. nat_eq (code c) b'/') target
  ok (if stripped == "" then "/" else stripped)

unfoldable pub choose_target : Platform → Option String → FilePath → List String → ℕ → Result String
choose_target platform (some target) source used index = given_target platform target index
choose_target platform none source used index =
    let base = if FilePath.name source == "" then "workspace" else FilePath.name source in
    ok (free_target base used 0 (length used))

unfoldable pub resolve_source : Platform → FilePath → String → FilePath
resolve_source platform root source_text =
    let unresolved = platform.expand_user source_text in
    if starts_with unresolved "/"
    then platform.resolve unresolved
    else platform.resolve (FilePath.render root <> "/" <> unresolved)

-- The body of the loop: one entry, with the targets in use.
unfoldable pub parse_mount : Platform → FilePath → List String → Value → ℕ → Result Mount
parse_mount platform root used entry index = do
  raw ← raw_mount entry index
  let label = "dirs[" <> show index <> "]"
  safe_text platform raw.source_text (label <> ".path")
  let source = resolve_source platform root raw.source_text
  safe_text platform (FilePath.render source) (label <> " resolved path")
  ensure (platform.exists source) (missing_source (FilePath.render source))
  target ← choose_target platform raw.target_text source used index
  refuse (contains used target) (duplicate_target target)
  ok (record {
    source = source;
    target = target;
    readonly = raw.readonly;
    inside_project = FilePath.is_relative_to source root;
  })

unfoldable pub parse_mount_list :
    Platform → FilePath → List String → List Value → ℕ → Result (List Mount)
parse_mount_list platform root used [] index = ok []
parse_mount_list platform root used (v ∷ vs) index = do
  mount ← parse_mount platform root used v index
  mounts ← parse_mount_list platform root (mount.target ∷ used) vs (suc index)
  ok (mount ∷ mounts)

unfoldable pub check_root : Option Mount → Result (Unit {0})
check_root none = err (config_error root_not_mounted)
check_root (some m) = refuse m.readonly root_read_only

unfoldable pub dir_entries : Option Value → Result (List Value)
dir_entries none = ok (text "." ∷ [])
dir_entries (some (arr (cons v vs))) = ok (v ∷ items vs)
dir_entries (some _) = err (config_error dirs_not_array)

unfoldable pub parse_mounts : Platform → Dict String Value → FilePath → Result (List Mount)
parse_mounts platform d root = do
  entries ← dir_entries (get d "dirs")
  mounts ← parse_mount_list platform root [] entries 0
  check_root (find? (λ (m : Mount). path_eq m.source root) mounts)
  ok mounts
