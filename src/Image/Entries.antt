-- ===== src/Image/Entries.antt =====
-- imagebuild.py: `CacheEntry`, `format_age`, `_int` and `ImageCache`. An instance is what Incus lists of
-- it, and a call of Incus that changes one is a `Command`. A moment is the number of microseconds since the year 1, in UTC.
pub mod Pruning
pub mod Printed
pub mod Roundtrip
pub mod Insertion
use derico_sandbox.Security.Hosts.{found}
use mathlib.Core.Option
use derico_sandbox.Config.Ports.{int_of_text}
use derico_sandbox.Config.Project.{instance_name}
use derico_sandbox.Image.Keys.{StageKey}
use derico_sandbox.Image.Names.{is_key}
use derico_sandbox.Platform.{Platform}
use derico_sandbox.Prelude.{
  Bool, List, Option, String, [], contains, filter, if◌then◌else◌, leb, nat_Eq, none, not, some,
  string_Eq, zero, ℕ, ◌*◌, ◌++◌, ◌-◌, ◌/◌, ◌<>◌, ◌==◌, ◌∷◌,
}
use derico_sandbox.Prelude.Decimal.{show, show_int}
use derico_sandbox.Prelude.Dict.{Dict, get, put}
use derico_sandbox.Prelude.Int.{pos, ℤ}
use derico_sandbox.Prelude.Sort.{sorted}
use derico_sandbox.Prelude.Text.{join, split, starts_with, str_le, drop_chars, or_none}

-- `list_instances` gives a record for each instance: its name and its configuration.
pub record Instance : Type 0 where
  pub name : String
  pub config : Dict String String

pub record CacheEntry : Type 0 where
  pub key : String
  pub stage : String
  pub parent : Option String
  pub source : String
  pub created : ℕ
  pub generation : ℤ
  pub build_allow : List String
  pub instance_name : String
  pub script : String
  pub inputs : String
  pub stage_generation : ℤ

-- `datetime.fromisoformat`, with UTC where the text names no zone, and `isoformat(timespec="seconds")`,
pub record Clock : Type 0 where
  pub from_iso : String → Option ℕ
  pub iso : ℕ → String
  -- `now.date().isoformat()`
  pub date : ℕ → String

pub data Command : Type 0 where
  set_config : String → Dict String String → Command
  delete_instance : String → Command
  rename_instance : String → String → Command

abbrev pub cache_prefix : String
cache_prefix = "sandboxsh-cache-"

abbrev config_prefix : String
config_prefix = "user.sandboxsh.cache."

-- 1970-01-01
abbrev epoch : ℕ
epoch = 62135596800 * 1000000

-- `entry.age(now)`
unfoldable pub age_of : CacheEntry → ℕ → ℕ
age_of entry now = now - entry.created

-- `format_age`, of microseconds
unfoldable pub format_age : ℕ → String
format_age age =
    let seconds = age / 1000000 in
    if leb 86400 seconds
    then show (seconds / 86400) <> "d"
    else if leb 3600 seconds
    then show (seconds / 3600) <> "h"
    else if leb 60 seconds
    then show (seconds / 60) <> "m"
    else "<1m"

-- `_int`
unfoldable pub int_or_zero : Platform → Option String → ℤ
int_or_zero platform none = pos zero
int_or_zero platform (some s) = Option.get_or (int_of_text platform s) (pos zero)

-- The keys that start with the prefix, without it.
unfoldable pub stamped : Dict String String → Dict String String
stamped [] = []
stamped ((k, v) ∷ d) =
    let rest = stamped d in
    if starts_with k config_prefix then (drop_chars 21 k, v) ∷ rest else rest

abbrev text_of : Dict String String → String → String
text_of d k = Option.get_or (get d k) ""

-- `[host for host in text.split(",") if host]`
unfoldable pub hosts_of : String → List String
hosts_of s = filter (λ h. not (h == "")) (split b',' s)

abbrev pub cache_name : StageKey → String
cache_name step = cache_prefix <> step.key

abbrev stamp : String → String → String × String
stamp name value = (config_prefix <> name, value)

-- The loop of `prune`, over the entries in the order of their keys: what is deleted, and `removed`.
unfoldable pub prune_entries :
    (String → Bool) → List (String × CacheEntry) → List Command × List String
prune_entries keeps [] = ([], [])
prune_entries keeps ((key, entry) ∷ rest) =
    let (commands, removed) = prune_entries keeps rest in
    if keeps key
    then (commands, removed)
    else (delete_instance entry.instance_name ∷ commands, key ∷ removed)

module _ (platform : Platform) (clock : Clock) where
  -- The body of `_entry` behind its first line: `name` and the stamps of the instance.
  abbrev entry_from : String → Dict String String → Option CacheEntry
  entry_from name d =
      let entry = λ (stage : String). some (record {
        key = text_of d "key";
        stage = stage;
        parent = or_none (get d "parent");
        source = text_of d "source";
        created = Option.get_or (clock.from_iso (text_of d "created")) epoch;
        generation = int_or_zero platform (get d "generation");
        build_allow = hosts_of (text_of d "build_allow");
        instance_name = name;
        script = text_of d "script";
        inputs = text_of d "inputs";
        stage_generation = int_or_zero platform (get d "stage_generation");
      }) in
      let found : Option CacheEntry = elim (get d "stage") [
        | some stage ↦ entry stage
        | none ↦ none
      ] in
      if not (is_key (text_of d "key")) then none else found

  -- `_entry`
  unfoldable pub entry_of : Instance → Option CacheEntry
  entry_of inst = entry_from inst.name (stamped inst.config)

  -- `entries`: the last of two entries with one key stays, at the place of the first.
  unfoldable pub entries_onto : Dict String CacheEntry → List Instance → Dict String CacheEntry
  entries_onto d [] = d
  entries_onto d (i ∷ is) = elim (entry_of i) [
    | some entry ↦ entries_onto (put d entry.key entry) is
    | none ↦ entries_onto d is
  ]

  unfoldable pub entries : List Instance → Dict String CacheEntry
  entries listing = entries_onto [] listing

  -- The stamps of `commit`.
  unfoldable pub stamps : StageKey → String → List String → ℕ → Dict String String
  stamps step source build_allow created =
      stamp "key" step.key
      ∷ stamp "stage" step.stage.name
      ∷ stamp "parent" (Option.get_or step.parent "")
      ∷ stamp "source" source
      ∷ stamp "created" (clock.iso created)
      ∷ stamp "generation" (show_int step.generation)
      ∷ stamp "stage_generation" (show_int step.stage_generation)
      ∷ stamp "build_allow" (join "," build_allow)
      ∷ stamp "script" step.script
      ∷ stamp "inputs" step.inputs
      ∷ []

  -- `commit`: the calls of Incus in their order, and the entry that is returned.
  unfoldable pub commit :
      String → StageKey → String → List String → Option CacheEntry → ℕ → List Command × CacheEntry
  commit worker step source build_allow existing created =
      let replaced : List Command = elim existing [
        | some entry ↦ delete_instance entry.instance_name ∷ []
        | none ↦ []
      ] in
      (
        set_config worker (stamps step source build_allow created)
            ∷ (replaced ++ rename_instance worker (cache_name step) ∷ []),
        record {
          key = step.key;
          stage = step.stage.name;
          parent = step.parent;
          source = source;
          created = created;
          generation = step.generation;
          build_allow = build_allow;
          instance_name = cache_name step;
          script = step.script;
          inputs = step.inputs;
          stage_generation = step.stage_generation;
        },
      )

  unfoldable pub prune : List String → List Instance → List Command × List String
  prune keep listing =
      prune_entries (contains keep)
        (sorted (λ (a b : String × CacheEntry). str_le a.0 b.0) (entries listing))
