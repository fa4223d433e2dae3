-- ===== src/Security/Mounts.antt =====
-- security.py: `_sensitive_paths`, `_overlaps` and `assert_mount_safe`.
pub mod Safe
use derico_sandbox.FilePath
use derico_sandbox.Errors.{Result, err, mount_of_root, ok, security_error, sensitive_mount, ◌>>◌}
use derico_sandbox.Host.{Host}
use derico_sandbox.Platform.{Platform}
use derico_sandbox.Prelude.{
  Bool, List, String, [], if◌then◌else◌, is_empty, map, ◌++◌, ◌<>◌, ◌||◌, ◌∷◌,
}
use derico_sandbox.FilePath.{FilePath}
use derico_sandbox.Config.Mounts.{Mount}

abbrev home_items : List String
home_items =
    ".ssh" ∷ ".gnupg" ∷ ".aws" ∷ ".kube" ∷ ".docker" ∷ ".claude" ∷ ".pi" ∷ ".vibe" ∷ ".config/incus"
    ∷ ".config/gcloud" ∷ ".config/sandboxsh" ∷ ".cache/sandboxsh" ∷ ".local/share/keyrings"
    ∷ ".local/share/pipx" ∷ ".local/pipx" ∷ []

-- `/var/lib/incus`, `/run/incus` and `/var/run`
abbrev system_paths : List FilePath
system_paths = ("var" ∷ "lib" ∷ "incus" ∷ []) ∷ ("run" ∷ "incus" ∷ []) ∷ ("var" ∷ "run" ∷ []) ∷ []

unfoldable pub sensitive_paths : Platform → Host → List FilePath
sensitive_paths platform host =
    map (λ item. platform.resolve (FilePath.render host.home <> "/" <> item)) home_items
    ++ system_paths

unfoldable pub overlaps : FilePath → FilePath → Bool
overlaps left right = FilePath.is_relative_to left right || FilePath.is_relative_to right left

-- The loop over the sensitive paths.
unfoldable pub check_sensitive : Mount → List FilePath → Result (Unit {0})
check_sensitive mount [] = ok tt
check_sensitive mount (p ∷ ps) =
    let rest = check_sensitive mount ps in
    if overlaps mount.source p
    then err (security_error (sensitive_mount (FilePath.render mount.source)))
    else rest

unfoldable pub assert_mount_safe : Platform → Host → Mount → Result (Unit {0})
assert_mount_safe platform host mount =
    if is_empty mount.source
    then err (security_error mount_of_root)
    else if host.allow_sensitive_mounts
    then ok tt
    else check_sensitive mount (sensitive_paths platform host)

unfoldable pub assert_mounts_safe : Platform → Host → List Mount → Result (Unit {0})
assert_mounts_safe platform host [] = ok tt
assert_mounts_safe platform host (m ∷ ms) = do
  assert_mount_safe platform host m
  assert_mounts_safe platform host ms
