-- ===== src/Tests/Templates.antt =====
-- The theorems on a build and its manifest, at sample data.
use derico_sandbox.Prelude.Dict.{Dict, get}
use derico_sandbox.Prelude.{◌++◌, filter}
use derico_sandbox.Tests.Builds.{committed_instance}
use derico_sandbox.Image.Entries.Insertion.{get-entries-commit}
use derico_sandbox.Image.Entries.{entries, entries_onto}
use derico_sandbox.Prelude.Split.{Lacks}
use derico_sandbox.Tests.Builds.{committed_key}
use derico_sandbox.Image.Names.{is_key, text_length, less_newline}
use derico_sandbox.Image.Entries.Roundtrip.{entry_of-commit, is_stamp}
use derico_sandbox.Image.Entries.{Clock, cache_name, commit, entry_of, stamps}
use derico_sandbox.Config.Names.{dash_runs, lower, lower_char, nth_char, safe_text, sanitize_name}
use derico_sandbox.Errors.{ok}
use derico_sandbox.FilePath.{FilePath}
use derico_sandbox.Prelude.Decimal.{digit_char, show}
use derico_sandbox.Prelude.Text.{
  any_char, drop_while, is_space, join, reverse, strip, strip_by, take_chars, ends_with,
  starts_with,
}
use derico_sandbox.Config.Project.{acl_name, instance_name, dots_to_dashes}
use derico_sandbox.Image.Workers.{build_project_config}
use derico_sandbox.Incus.Network.{host_acl_name}
use derico_sandbox.Tests.Images.{options}
use derico_sandbox.Image.Build.Attached.{IsAttached}
use derico_sandbox.Cli.Images.Guarded.{image_build_command-IsAttached}
use derico_sandbox.Cli.Images.{image_build_command}
use derico_sandbox.FilePath
use derico_sandbox.Image.Workers.{build_stages}
use derico_sandbox.Image.Build.{build}
use derico_sandbox.Image.Build.DryRun.{AsksOnly, build-AsksOnly}
use derico_sandbox.Image.Build.Template.{entry_key, plan-build_stages}
use derico_sandbox.Image.BuildPlan.{build_key, is_noop, reused_entry, to_build}
use derico_sandbox.Image.Builder.{plan}
use derico_sandbox.Image.Manifest.{load_manifest, manifest_document}
use derico_sandbox.Image.Manifest.Roundtrip.{in_order, load_manifest-manifest_document}
use derico_sandbox.Prelude.{
  if◌then◌else◌, none, ◌==◌, false, some, true, ◌≡◌, ◌⊎◌, refl, string_Eq, arith, String, [], none,
  ◌∷◌, nat_Eq,
}
use derico_sandbox.System.{return}
use derico_sandbox.System.Leaves.{Returns}
use derico_sandbox.Tests.Builds.{manifest, request, workshop}
use derico_sandbox.Tests.Machine.{fresh as fresh_state, machine}
use derico_sandbox.Tests.Samples.{platform}
use derico_sandbox.Tests.Security.{policy}

build-AsksOnly_example :
    AsksOnly fresh_state
      (build (machine false "") workshop request false true true true (return tt) fresh_state).1
build-AsksOnly_example =
    build-AsksOnly (machine false "") workshop request false true true (return tt) fresh_state

plan-build_stages_example :
    Returns
      (λ p u.
        (is_noop p ≡ true)
        ⊎ Returns
            (λ o v. entry_key o ≡ build_key p)
            (build_stages
              (machine false "")
              workshop
              p
              policy
              (to_build p)
              (reused_entry p)
              fresh_state))
      (plan (machine false "") workshop request fresh_state)
plan-build_stages_example =
    plan-build_stages (machine false "") workshop request policy fresh_state fresh_state

load_manifest-manifest_document_example :
    load_manifest platform (some (manifest_document manifest)) ≡ record manifest {
      stage_generations = in_order manifest.stage_generations;
      sources = in_order manifest.sources;
    }
load_manifest-manifest_document_example =
    load_manifest-manifest_document platform manifest (λ c digit. ground arith) (refl, tt)

abbrev acl : String
acl = "acl-u1000-acl-ss-sandboxsh-01234567-01234567"

acl_of_build :
    host_acl_name (machine false "") (build_project_config (machine false "") workshop "" [])
    ≡ ok acl
unfolding host_acl_name acl_name instance_name sanitize_name safe_text any_char FilePath.name
    FilePath.parent lower strip_by reverse drop_while dash_runs strip is_space lower_char show
    nth_char dots_to_dashes FilePath.render digit_char join take_chars build_project_config
acl_of_build = refl

image_build_command-IsAttached_example :
    IsAttached acl
      (image_build_command (machine false "") workshop (options false) fresh_state).1.history
image_build_command-IsAttached_example =
    image_build_command-IsAttached (machine false "") workshop acl (options false) fresh_state
      acl_of_build tt

abbrev punctual : Clock
punctual = record {
  from_iso = λ s. if s == "five" then some 5 else none;
  iso = λ t. "five";
  date = λ t. "today";
}

key_of_commit : is_key committed_key.key ≡ true
unfolding is_key text_length less_newline ends_with starts_with reverse any_char
key_of_commit = refl

hosts-Lacks : Lacks b',' "a.org" × Lacks b',' "b.org"
unfolding any_char
hosts-Lacks = (refl, refl)

abbrev config_of_commit : Dict String String
config_of_commit =
    ("limits.cpu", "4") ∷ stamps platform punctual committed_key "f00d" ("a.org" ∷ "b.org" ∷ []) 5
    ++ ("volatile.uuid", "8f2e") ∷ []

stamps_of_commit :
    filter is_stamp config_of_commit
    ≡ stamps platform punctual committed_key "f00d" ("a.org" ∷ "b.org" ∷ []) 5
unfolding starts_with stamps
stamps_of_commit = refl

entry_of-commit_example :
    entry_of platform punctual
      (record { name = cache_name committed_key; config = config_of_commit })
    ≡ some
        (commit platform punctual "worker" committed_key "f00d" ("a.org" ∷ "b.org" ∷ []) none 5).1
entry_of-commit_example =
    entry_of-commit platform punctual "worker" committed_key "f00d" ("a.org" ∷ "b.org" ∷ []) none 5
      config_of_commit (λ c digit. ground arith) key_of_commit (λ eq. ground arith)
      ((refl, hosts-Lacks.0), ((refl, hosts-Lacks.1), tt)) refl stamps_of_commit

none_behind : get (entries platform punctual []) committed_key.key ≡ none
unfolding entries entries_onto get
none_behind = refl

get-entries-commit_example :
    get
      (entries platform punctual (
        (committed_instance ∷ [])
        ++ record {
          name = cache_name committed_key;
          config = stamps platform punctual committed_key "f00d" ("a.org" ∷ "b.org" ∷ []) 5;
        }
          ∷ []))
      "00000000000000bb"
    ≡ (if "00000000000000bb" == committed_key.key
        then some
            (commit platform punctual "worker" committed_key "f00d"
              ("a.org" ∷ "b.org" ∷ [])
              none
              5).1
        else get (entries platform punctual ((committed_instance ∷ []) ++ [])) "00000000000000bb")
get-entries-commit_example =
    get-entries-commit platform punctual "worker" committed_key "f00d" ("a.org" ∷ "b.org" ∷ []) none
      5 (committed_instance ∷ []) [] "00000000000000bb" (λ c digit. ground arith) key_of_commit
      (λ eq. ground arith) ((refl, hosts-Lacks.0), ((refl, hosts-Lacks.1), tt)) refl none_behind
