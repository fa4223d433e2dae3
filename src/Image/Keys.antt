-- ===== src/Image/Keys.antt =====
-- imagebuild.py: `_digest`, `BuildInputs`, `StageKey` and `stage_keys`. The 16 digits of a key are a
-- prefix of the hexadecimal SHA-256, and every text that is hashed is followed by a zero byte.

pub mod Chain
pub mod Digest
pub mod Collision
use mathlib.Core.Option
use derico_sandbox.Image.Stages.{
  GuestFiles, Stage, StageArguments, StageInputs, helper_inputs, no_arguments, no_inputs,
  user_arguments, user_inputs,
}
use derico_sandbox.Platform.{Platform}
use derico_sandbox.Prelude.{
  List, Option, String, [], if◌then◌else◌, map, nat_Eq, none, some, string_Eq, zero, ℕ, ◌<>◌, ◌==◌,
  ◌∷◌,
}
use derico_sandbox.Prelude.Decimal.{show, show_int}
use derico_sandbox.Prelude.Dict.{Dict, get}
use derico_sandbox.Prelude.Int.{pos, ℤ}
use derico_sandbox.Prelude.Text.{join, take_chars}

pub record BuildInputs : Type 0 where
  pub source_fingerprint : String
  pub architecture : String
  pub uid : ℕ
  pub gid : ℕ
  pub stages : List Stage
  pub helper_hashes : List String
  pub build_allow : List String
  pub generation : ℤ
  pub stage_generations : Dict String ℤ

pub record StageKey : Type 0 where
  pub stage : Stage
  pub key : String
  pub parent : Option String
  pub script : String
  pub inputs : String
  pub generation : ℤ
  pub stage_generation : ℤ

-- `_user_inputs` and `_helper_inputs`
pub stage_inputs : StageInputs → BuildInputs → List String
stage_inputs no_inputs inputs = []
stage_inputs user_inputs inputs = ("uid=" <> show inputs.uid) ∷ ("gid=" <> show inputs.gid) ∷ []
stage_inputs helper_inputs inputs = map (λ digest. "helper=" <> digest) inputs.helper_hashes

-- `_user_arguments`
unfoldable pub stage_arguments : StageArguments → BuildInputs → List String
stage_arguments no_arguments inputs = []
stage_arguments user_arguments inputs = show inputs.uid ∷ show inputs.gid ∷ []

unfoldable pub hashed_text : List String → String
hashed_text [] = ""
hashed_text (p ∷ ps) = p <> "\0" <> hashed_text ps

unfoldable pub digest : Platform → List String → String
digest platform parts = platform.sha256 (hashed_text parts)

pub source_key : Platform → BuildInputs → String
source_key platform inputs =
    digest platform ("source" ∷ inputs.source_fingerprint ∷ inputs.architecture ∷ [])

-- `parent or inputs.source_key`
pub parent_key : Platform → BuildInputs → Option String → String
parent_key platform inputs (some key) = if key == "" then source_key platform inputs else key
parent_key platform inputs none = source_key platform inputs

module _ (platform : Platform) (guest : GuestFiles) (inputs : BuildInputs) where
  -- `generation` and `stage_generation` of a stage
  unfoldable pub generation_of : Stage → ℤ
  generation_of stage = if stage.floating then inputs.generation else pos zero

  unfoldable pub stage_generation_of : Stage → ℤ
  stage_generation_of stage =
      if stage.floating
      then Option.get_or (get inputs.stage_generations stage.name) (pos zero)
      else pos zero

  unfoldable pub declared_of : Stage → String
  declared_of stage = digest platform (stage_inputs stage.inputs inputs)

  -- `material`
  unfoldable pub material : Option String → Stage → List String
  material parent stage =
      parent_key platform inputs parent
      ∷ stage.name
      ∷ guest.file_hash stage.script
      ∷ declared_of stage
      ∷ (if stage.floating
          then ("generation=" <> show_int (generation_of stage))
            ∷ ("stage-generation=" <> show_int (stage_generation_of stage))
            ∷ ("build-allow=" <> join "," inputs.build_allow)
            ∷ []
          else [])

  -- The body of the loop over the stages.
  unfoldable pub stage_key : Option String → Stage → StageKey
  stage_key parent stage = record {
    stage = stage;
    key = take_chars 16 (digest platform (material parent stage));
    parent = parent;
    script = guest.file_hash stage.script;
    inputs = declared_of stage;
    generation = generation_of stage;
    stage_generation = stage_generation_of stage;
  }

  unfoldable pub keys_from : Option String → List Stage → List StageKey
  keys_from parent [] = []
  keys_from parent (s ∷ ss) = let key = stage_key parent s in key ∷ keys_from (some key.key) ss

  unfoldable pub stage_keys : List StageKey
  stage_keys = keys_from none inputs.stages
