-- ===== src/Image/Stages.antt =====
-- imagebuild.py: `Stage`, `STAGE_DECLARATIONS`, `load_stages` and `_verify_cloud_init_contract`. The two
-- functions a stage declares are values of a type each, which `stage_inputs` and `stage_arguments` of
-- Keys.antt apply.
pub mod Order
use derico_sandbox.FilePath
use derico_sandbox.FilePath.{FilePath}
use derico_sandbox.Image.Names.{is_stage_file, stem, text_index}
use derico_sandbox.Platform.{Platform}
use derico_sandbox.Prelude.Sort.{sorted}
use derico_sandbox.Prelude.Text.{has_text, starts_with, str_le}
use derico_sandbox.Errors.{
  first_stage, image_error, Result, bad_optional_name, bad_stage_name, clean_before_enable, err,
  last_stage, missing_stage, no_cloud_init_disable, no_cloud_init_line, no_stage_directory, ok,
  reject, repeated_stages, ◌>>=◌, ◌>>◌,
}
use derico_sandbox.Prelude.{
  String, init_of, last_of, Bool, List, [], distinct, false, head_or, if◌then◌else◌, length, ltb,
  map, nat_Eq, nat_eq, not, string_Eq, true, ◌++◌, ◌==◌, ◌∷◌,
}

abbrev cloud_init_disable : String
cloud_init_disable = "touch /etc/cloud/cloud-init.disabled"

abbrev cloud_init_enable : String
cloud_init_enable = "rm -f /etc/cloud/cloud-init.disabled"

abbrev cloud_init_clean : String
cloud_init_clean = "cloud-init clean --logs --machine-id"

abbrev pub finalize_stage : String
finalize_stage = "90-finalize"

abbrev pub helper_files : List String
helper_files =
    "agent-init.sh" ∷ "instance-init.sh" ∷ "gpt-system-indicator.js" ∷ "gpt-system-prompt.md" ∷ []

-- `_no_inputs`, `_user_inputs` and `_helper_inputs`
pub data StageInputs : Type 0 where
  no_inputs user_inputs helper_inputs : StageInputs

-- `_no_inputs` and `_user_arguments`
pub data StageArguments : Type 0 where
  no_arguments user_arguments : StageArguments

pub record Stage : Type 0 where
  pub name : String
  pub script : FilePath
  pub floating : Bool
  pub inputs : StageInputs
  pub inputs_label : String
  pub arguments : StageArguments
  pub files : List String

-- What the host's file system says of the guest directory.
pub record GuestFiles : Type 0 where
  pub is_dir : Bool
  pub listing : List FilePath
  pub is_file : FilePath → Bool
  pub read_text : FilePath → String
  pub file_hash : FilePath → String

-- `_stage`, with the declarations of the two stages that have some
unfoldable pub stage_of : FilePath → Stage
stage_of path =
    let name = stem (FilePath.name path) in
    let plain : Stage = record {
      name = name;
      script = path;
      floating = true;
      inputs = no_inputs;
      inputs_label = "";
      arguments = no_arguments;
      files = [];
    } in
    if name == "30-user"
    then record plain { inputs = user_inputs; inputs_label = "uid/gid"; arguments = user_arguments }
    else if name == finalize_stage
    then record plain {
      floating = false;
      inputs = helper_inputs;
      inputs_label = "helpers";
      files = helper_files;
    }
    else plain

abbrev pub stage_names : List Stage → List String
stage_names stages = map (λ (s : Stage). s.name) stages

module _ (platform : Platform) (guest : GuestFiles) where
  -- The loop over the stage directory.
  unfoldable pub core_stages : List FilePath → Result (List Stage)
  core_stages [] = ok []
  core_stages (p ∷ ps) = do
    reject (not (is_stage_file platform (FilePath.name p)))
        (image_error (bad_stage_name (FilePath.name p)))
    rest ← core_stages ps
    ok (stage_of p ∷ rest)

  -- The loop over the optional stages.
  unfoldable pub optional_stages : List FilePath → Result (List Stage)
  optional_stages [] = ok []
  optional_stages (p ∷ ps) = do
    reject (not (is_stage_file platform (FilePath.name p)))
        (image_error (bad_optional_name (FilePath.name p)))
    reject (not (guest.is_file p)) (image_error (missing_stage (FilePath.render p)))
    rest ← optional_stages ps
    ok (stage_of p ∷ rest)

  -- The checks of `_verify_cloud_init_contract` on the last stage.
  unfoldable pub check_last : Stage → Result (Unit {0})
  check_last last = do
    let script = guest.read_text last.script
    let name = FilePath.name last.script
    reject (not (has_text script cloud_init_enable))
        (image_error (no_cloud_init_line name cloud_init_enable))
    reject (not (has_text script cloud_init_clean))
        (image_error (no_cloud_init_line name cloud_init_clean))
    reject (ltb (text_index script cloud_init_clean) (text_index script cloud_init_enable))
        (image_error (clean_before_enable name))

  unfoldable pub verify_cloud_init_contract : Stage → Stage → Result (Unit {0})
  verify_cloud_init_contract first last = do
    reject (not (has_text (guest.read_text first.script) cloud_init_disable))
        (image_error (no_cloud_init_disable (FilePath.name first.script)))
    check_last last

  -- From the check of the first stage on, which has stood; `core` is `core[:-1]`, and `last` is `core[-1]`.
  unfoldable pub assemble : List FilePath → List Stage → Stage → Result (List Stage)
  assemble extra core last = do
    reject (not (last.name == finalize_stage)) (image_error last_stage)
    optional ← optional_stages extra
    let middle = sorted (λ (a b : Stage). str_le a.name b.name) (core ++ optional)
    let stages = middle ++ last ∷ []
    let names = stage_names stages
    reject (not (nat_eq (length (distinct names)) (length names)))
        (image_error (repeated_stages names))
    verify_cloud_init_contract (head_or last middle) last
    ok stages

  unfoldable pub load_core : List FilePath → List Stage → Result (List Stage)
  load_core extra [] = err (image_error first_stage)
  load_core extra (s ∷ ss) = do
    reject (not (starts_with s.name "10-")) (image_error first_stage)
    assemble extra (init_of s ss) (last_of s ss)

  -- `load_stages`. The entries of one directory are in the order of their names.
  unfoldable pub load_stages : List FilePath → Result (List Stage)
  load_stages extra = do
    reject (not guest.is_dir) (image_error no_stage_directory)
    core ← core_stages (sorted (λ a b. str_le (FilePath.name a) (FilePath.name b)) guest.listing)
    load_core extra core
