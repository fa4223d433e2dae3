-- ===== src/Tests/Image.antt =====
-- A chain of three stages, its keys, its plan, and the cache.
use derico_sandbox.Platform.{Platform}
use derico_sandbox.Config.Ports.{int_of_text, int_digits, signed}
use derico_sandbox.Image.Names.{
  is_stage_name, until_dot, text_index, stem, is_key, is_slug, less_newline, is_stage_file,
  text_length,
}
use derico_sandbox.Tests.Samples.{platform}
use derico_sandbox.FilePath
use derico_sandbox.Errors.{ok}
use derico_sandbox.FilePath.{FilePath}
use derico_sandbox.Image.Entries.{
  CacheEntry, Clock, Instance, delete_instance, entries, prune, prune_entries, entry_of, stamped,
  hosts_of, entries_onto, int_or_zero,
}
use derico_sandbox.Image.Entries.Pruning.{by_key, dropped, prune-removed}
use derico_sandbox.Image.Keys.{BuildInputs, StageKey, stage_keys}
use derico_sandbox.Image.Keys.Chain.{stage_keys-take}
use derico_sandbox.Image.Keys.Digest.{Collision}
use derico_sandbox.Image.Plan.{PlanStep, plan_steps, plan_from}
use derico_sandbox.Image.Stages.{
  GuestFiles, Stage, core_stages, finalize_stage, load_stages, optional_stages, stage_names,
  stage_of, verify_cloud_init_contract, load_core, assemble, check_last,
}
use derico_sandbox.Image.Stages.Order.{by_name, load_stages-names}
use derico_sandbox.Prelude.{
  IsDistinct, List, String, [], contains, false, map, nat_Eq, none, not, refl, string_Eq, take,
  true, ◌&&◌, ◌++◌, ◌<>◌, ◌∷◌, ◌≡◌, distinct,
}
use derico_sandbox.Prelude.Dict.{Dict, keys, put, get}
use derico_sandbox.Prelude.Int.{pos}
use derico_sandbox.Prelude.Sort.{sorted, insert_sorted}
use derico_sandbox.Prelude.Text.{
  str_le, reverse, ends_with, starts_with, has_text, join, strip_by, any_char, strip, is_space,
  drop_chars, split_onto, drop_while, or_none, split,
}

abbrev stage_path : String → FilePath
stage_path file = "guest" ∷ "stages" ∷ file ∷ []

abbrev guest : GuestFiles
guest = record {
  is_dir = true;
  listing = stage_path "90-finalize.sh" ∷ stage_path "10-base.sh" ∷ [];
  is_file = λ p. true;
  read_text = λ p.
      "touch /etc/cloud/cloud-init.disabled rm -f /etc/cloud/cloud-init.disabled cloud-init clean --logs --machine-id";
  file_hash = λ p. FilePath.name p;
}

abbrev chain : List Stage
chain =
    stage_of (stage_path "10-base.sh")
    ∷ stage_of (stage_path "30-user.sh")
    ∷ stage_of (stage_path "90-finalize.sh")
    ∷ []

stages_loaded : load_stages platform guest (stage_path "30-user.sh" ∷ []) ≡ ok chain
unfolding load_stages core_stages sorted FilePath.name is_stage_file ends_with starts_with reverse
    less_newline is_stage_name drop_chars split split_onto is_slug any_char load_core stage_of
    FilePath.render stem text_index until_dot assemble check_last optional_stages
    verify_cloud_init_contract distinct insert_sorted has_text join
stages_loaded = refl

load_stages-names_example :
    (core : List Stage) × (optional : List Stage) × (last : Stage) × (core_stages platform guest
        (sorted (λ a b. str_le (FilePath.name a) (FilePath.name b)) guest.listing)
      ≡ ok (core ++ last ∷ []))
    × (optional_stages platform guest (stage_path "30-user.sh" ∷ []) ≡ ok optional)
    × (chain ≡ sorted by_name (core ++ optional) ++ last ∷ [])
    × (last.name ≡ finalize_stage)
    × IsDistinct (stage_names chain)
load_stages-names_example =
    load_stages-names platform guest (stage_path "30-user.sh" ∷ []) chain stages_loaded

abbrev inputs : BuildInputs
inputs = record {
  source_fingerprint = "abcdef";
  architecture = "x86_64";
  uid = 1000;
  gid = 1000;
  stages = chain;
  helper_hashes = [];
  build_allow = [];
  generation = pos 1;
  stage_generations = [];
}

-- A platform whose digests are sixteen digits.
abbrev printing : Platform
printing = record platform { sha256 = λ s. "0123456789abcdef" }

-- The files of a guest, each with a printed hash.
abbrev hashed : GuestFiles
hashed = record guest { file_hash = λ f. "fedcba9876543210" }

-- The inputs of another user.
abbrev foreign_inputs : BuildInputs
foreign_inputs = record inputs { uid = 1001; gid = 1001 }

abbrev late : List Stage
late = stage_of (stage_path "95-late.sh") ∷ []

stage_keys-take_example :
    take 3 (stage_keys platform guest (record inputs { stages = inputs.stages ++ late }))
    ≡ stage_keys platform guest inputs
stage_keys-take_example = stage_keys-take platform guest inputs late

abbrev sample_key : String → StageKey
sample_key k = record {
  stage = stage_of (stage_path "10-base.sh");
  key = k;
  parent = none;
  script = "s";
  inputs = "i";
  generation = pos 0;
  stage_generation = pos 0;
}

abbrev clock : Clock
clock = record { from_iso = λ s. none; iso = λ t. ""; date = λ t. "" }

abbrev stamped_instance : String → Instance
stamped_instance k = record {
  name = "sandboxsh-cache-" <> k;
  config =
      ("user.sandboxsh.cache.key", k)
      ∷ ("user.sandboxsh.cache.stage", "10-base")
      ∷ ("limits.cpu", "4")
      ∷ [];
}

abbrev listing : List Instance
listing = stamped_instance "00000000000000aa" ∷ stamped_instance "00000000000000bb" ∷ []

abbrev cached : Dict String CacheEntry
cached = entries platform clock listing

abbrev keys_wanted : List StageKey
keys_wanted =
    sample_key "00000000000000aa"
    ∷ sample_key "00000000000000cc"
    ∷ sample_key "00000000000000bb"
    ∷ []

hits :
    map (λ (s : PlanStep). s.hit) (plan_steps cached "abcdef" [] false keys_wanted)
    ≡ true ∷ false ∷ false ∷ []
unfolding plan_steps plan_from get entries entries_onto entry_of is_key text_length less_newline
    ends_with starts_with reverse stamped drop_chars any_char put
hits = refl

pruned :
    prune platform clock ("00000000000000aa" ∷ []) listing
    ≡ (delete_instance "sandboxsh-cache-00000000000000bb" ∷ [], "00000000000000bb" ∷ [])
unfolding prune prune_entries sorted entries entries_onto entry_of is_key text_length less_newline
    ends_with starts_with reverse get stamped drop_chars any_char put int_digits int_of_text signed
    hosts_of int_or_zero insert_sorted drop_while is_space or_none split split_onto strip strip_by
pruned = refl

prune-removed_example :
    let es = dropped (contains ("00000000000000aa" ∷ [])) (sorted by_key cached) in
    ((prune platform clock ("00000000000000aa" ∷ []) listing).0
      ≡ map (λ (e : String × CacheEntry). delete_instance e.1.instance_name) es)
    × ((prune platform clock ("00000000000000aa" ∷ []) listing).1 ≡ keys es)
    × ((k : String)
        → contains (prune platform clock ("00000000000000aa" ∷ []) listing).1 k
          ≡ (not (contains ("00000000000000aa" ∷ []) k) && contains (keys cached) k))
prune-removed_example = prune-removed platform clock ("00000000000000aa" ∷ []) listing
