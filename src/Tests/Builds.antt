-- ===== src/Tests/Builds.antt =====
-- Runs of the planning of a build, the manifest and the cache.
use derico_sandbox.Image.BuildPlan.{days}
use derico_sandbox.Image.Keys.{stage_arguments, BuildInputs}
use derico_sandbox.Prelude.Sort.{sorted}
use derico_sandbox.FilePath.{name}
use derico_sandbox.Config.Ports.{int_digits, signed, int_of_text}
use derico_sandbox.Image.Names.{stem, text_length, until_dot, less_newline, is_key}
use derico_sandbox.Prelude.Decimal.{show_int, show, digit_char}
use derico_sandbox.Prelude.Text.{
  is_space, starts_with, drop_chars, strip_by, reverse, split_onto, drop_while, strip, ends_with,
  or_none, split, join, any_char,
}
use derico_sandbox.Config.Load.{str_of}
use derico_sandbox.Errors.{err, ok, crash, overflow_error}
use derico_sandbox.Image.Builder.{Request}
use derico_sandbox.Image.Entries.{
  CacheEntry, Clock, Command, Instance, commit, delete_instance, entry_of, format_age,
  rename_instance, set_config, stamps, stamped, hosts_of, int_or_zero, age_of,
}
use derico_sandbox.Image.Keys.{StageKey}
use derico_sandbox.Image.Manifest.{
  Manifest, load_manifest, manifest_document, generation_value, source_document, read_source_items,
  read_source, read_sources, is_true, read_generations,
}
use derico_sandbox.Image.Stages.{GuestFiles, stage_of, user_arguments}
use derico_sandbox.Prelude.{
  Bool, List, Option, String, [], false, map, none, refl, some, true, ◌*◌, ◌∷◌, ◌≡◌, distinct,
  nat_Eq, string_Eq,
}
use derico_sandbox.Prelude.Dict.{get}
use derico_sandbox.Prelude.Int.{pos, ℤ}
use derico_sandbox.Tests.Samples.{platform}
use derico_sandbox.Image.Settings.{build_allow_from_env, max_age_days}
use derico_sandbox.Image.Cache.{Workshop}

ages : (format_age 59999999 ≡ "<1m") × (format_age (7200 * 1000000) ≡ "2h")
unfolding format_age show
ages = (refl, refl)

allowed : build_allow_from_env (some "b.org, a.org,,b.org") ≡ "a.org" ∷ "b.org" ∷ []
unfolding build_allow_from_env sorted distinct split split_onto strip strip_by reverse drop_while
    is_space
allowed = refl

oldest : (max_age_days platform (some "0") ≡ 1) × (max_age_days platform (some "soon") ≡ 30)
unfolding max_age_days int_of_text signed strip strip_by reverse drop_while is_space int_digits
oldest = (refl, refl)

abbrev guest : GuestFiles
guest = record {
  is_dir = true;
  listing = ("stages" ∷ "90-finalize.sh" ∷ []) ∷ ("stages" ∷ "10-base.sh" ∷ []) ∷ [];
  is_file = λ p. true;
  read_text = λ p.
      "touch /etc/cloud/cloud-init.disabled rm -f /etc/cloud/cloud-init.disabled cloud-init clean --logs --machine-id";
  file_hash = λ p. "hash";
}

abbrev clock : Clock
clock = record { from_iso = λ s. none; iso = λ t. "now"; date = λ t. "today" }

abbrev pub workshop : Workshop
workshop = record {
  clock = clock;
  guest = guest;
  settings = record {
    uid = 1000;
    gid = 1000;
    build_allow = [];
    max_age_days = 30;
    helper_path = λ n. "guest" ∷ n ∷ [];
    keep_failed = false;
  };
  wall_clock = λ h. 0;
  token = λ h. "abc";
  is_unlocked = λ h. false;
}

abbrev pub request : Request
request = record {
  alias = "sandboxsh/base";
  source = "images:debian/13/cloud";
  refresh = true;
  refresh_from = none;
  no_cache = false;
  generation = none;
}

abbrev pub manifest : Manifest
manifest = record {
  generation = pos 3;
  stage_generations = ("10-base", pos 2) ∷ [];
  sources =
      (
        "images:debian/13/cloud",
        record { fingerprint = "f00d"; architecture = "x86_64"; serial = "1"; pinned = "today" },
      )
      ∷ [];
}

manifest_saved : load_manifest platform (some (manifest_document manifest)) ≡ manifest
unfolding load_manifest manifest_document generation_value read_generations read_sources int_or_zero
    get int_of_text sorted read_source_items signed read_source strip source_document strip_by
    is_true reverse str_of drop_while show_int show is_space int_digits
manifest_saved = refl

abbrev pub committed_key : StageKey
committed_key = record {
  stage = stage_of ("stages" ∷ "10-base.sh" ∷ []);
  key = "00000000000000aa";
  parent = none;
  script = "s";
  inputs = "i";
  generation = pos 3;
  stage_generation = pos 0;
}

abbrev commands_of : List Command × CacheEntry → List Command
commands_of r = r.0

abbrev is_rename : Command → Bool
is_rename (rename_instance a b) = true
is_rename (set_config w d) = false
is_rename (delete_instance w) = false

commit_renames :
    map
      (λ c. is_rename c)
      (commands_of (commit platform clock "worker" committed_key "f00d" [] none 5))
    ≡ false ∷ true ∷ []
unfolding commit
commit_renames = refl

abbrev pub committed_instance : Instance
committed_instance = record {
  name = "sandboxsh-cache-00000000000000aa";
  config = stamps platform clock committed_key "f00d" ("a.org" ∷ "b.org" ∷ []) 5;
}

abbrev entry_summary : Option CacheEntry → Option (String × String × List String × ℤ)
entry_summary (some e) = some (e.key, e.stage, e.build_allow, e.generation)
entry_summary none = none

entry_read_back :
    entry_summary (entry_of platform clock committed_instance)
    ≡ some ("00000000000000aa", "10-base", "a.org" ∷ "b.org" ∷ [], pos 3)
unfolding entry_of is_key text_length less_newline ends_with starts_with reverse get stamped stamps
    drop_chars any_char stage_of hosts_of int_or_zero stem split int_of_text until_dot split_onto
    signed name join strip strip_by int_digits digit_char show show_int drop_while is_space or_none
entry_read_back = refl

abbrev old_entry : CacheEntry
old_entry = record {
  key = "00000000000000aa";
  stage = "10-base";
  parent = none;
  source = "f00d";
  created = 5;
  generation = pos 0;
  build_allow = [];
  instance_name = "sandboxsh-cache-00000000000000aa";
  script = "s";
  inputs = "i";
  stage_generation = pos 0;
}

entry_ages : (age_of old_entry 9 ≡ 4) × (age_of old_entry 3 ≡ 0)
unfolding age_of
entry_ages = (refl, refl)

day_limit : (days 2 ≡ ok (172800 * 1000000)) × (days 1000000000 ≡ err (crash overflow_error))
unfolding days
day_limit = (refl, refl)

abbrev build_inputs : BuildInputs
build_inputs = record {
  source_fingerprint = "f00d";
  architecture = "x86_64";
  uid = 1000;
  gid = 100;
  stages = [];
  helper_hashes = [];
  build_allow = [];
  generation = pos 0;
  stage_generations = [];
}

user_stage_arguments : stage_arguments user_arguments build_inputs ≡ "1000" ∷ "100" ∷ []
unfolding stage_arguments show
user_stage_arguments = refl
