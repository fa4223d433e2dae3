-- ===== src/Security/Mounts/Safe.antt =====
-- security.py: which mounts `assert_mount_safe` lets through.
use derico_sandbox.FilePath
use derico_sandbox.Config.Mounts.{Mount}
use derico_sandbox.FilePath.{FilePath, is_relative_to}
use derico_sandbox.Host.{Host}
use derico_sandbox.Platform.{Platform}
use derico_sandbox.FilePath.{is_relative_to}
use derico_sandbox.Prelude.{List, [], false, ◌∷◌, ◌≡◌, All, ◌++◌, ◌<>◌, ◌≢◌}

-- The path is the base or lies in it.
abbrev pub LiesIn : FilePath → FilePath → Type 0
LiesIn path base = (rest : FilePath) × (path ≡ base ++ rest)

-- Neither path lies in the other.
abbrev pub IsApart : FilePath → FilePath → Type 0
IsApart left right = (LiesIn left right → ⊥) × (LiesIn right left → ⊥)

-- Apart from every directory of the host that may hold a secret or give control of it.
abbrev pub IsApartFromSecrets : Platform → Host → FilePath → Type 0
IsApartFromSecrets platform host source =
    All (λ item. IsApart source (platform.resolve (FilePath.render host.home <> "/" <> item)))
      (".ssh" ∷ ".gnupg" ∷ ".aws" ∷ ".kube" ∷ ".docker" ∷ ".claude" ∷ ".pi" ∷ ".vibe"
        ∷ ".config/incus" ∷ ".config/gcloud" ∷ ".config/sandboxsh" ∷ ".cache/sandboxsh"
        ∷ ".local/share/keyrings" ∷ ".local/share/pipx" ∷ ".local/pipx" ∷ [])
    × IsApart source ("var" ∷ "lib" ∷ "incus" ∷ [])
    × IsApart source ("run" ∷ "incus" ∷ [])
    × IsApart source ("var" ∷ "run" ∷ [])

-- The mount is not of the root and, unless the host allows it, touches no secret.
abbrev pub IsSafe : Platform → Host → Mount → Type 0
IsSafe platform host mount =
    (mount.source ≢ [])
    × (host.allow_sensitive_mounts ≡ false → IsApartFromSecrets platform host mount.source)
