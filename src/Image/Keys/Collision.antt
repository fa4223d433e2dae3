-- ===== src/Image/Keys/Collision.antt =====
-- What equal keys of two chains say of the stages below: `stage_keys` against `_digest`.
use derico_sandbox.Image.Keys.{BuildInputs, StageKey}
use derico_sandbox.FilePath.{FilePath}
use derico_sandbox.Image.Stages.{Stage}
use derico_sandbox.Platform.{Platform}
use derico_sandbox.Prelude.{All, List, String, [], false, nat_Eq, string_Eq, ◌==◌, ◌∷◌, ◌≡◌}
use derico_sandbox.Prelude.Split.{Lacks}
use derico_sandbox.Prelude.Text.{take_chars}

-- A digest is not empty and has no NUL.
abbrev pub IsPrinted : Platform → Type 0
IsPrinted platform =
    (x : String) → Lacks 0 (platform.sha256 x) × ((take_chars 16 (platform.sha256 x) == "") ≡ false)

-- What a key stands for: the key, the stage's name, its script and its declared inputs.
abbrev pub contents : StageKey → String × String × String × String
contents k = (k.key, k.stage.name, k.script, k.inputs)

-- The key of the last stage, which is that of the template.
abbrev pub final_key : List StageKey → String
final_key [] = ""
final_key (k ∷ []) = k.key
final_key (k ∷ l ∷ ks) = final_key (l ∷ ks)

-- The texts of the inputs hold no NUL, with which `_digest` ends each of them.
abbrev pub IsWritten : BuildInputs → Type 0
IsWritten inputs =
    Lacks 0 inputs.source_fingerprint
    × Lacks 0 inputs.architecture
    × All (λ (x : Stage). Lacks 0 x.name) inputs.stages
