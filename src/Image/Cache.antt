-- ===== src/Image/Cache.antt =====
-- imagebuild.py: `ImageCache` over Incus: the listings, and the commands of `commit`, `discard` and `prune`.
-- `Workshop` is what a builder finds on its host besides the `System`.
use derico_sandbox.Config.Load.{str_of}
use derico_sandbox.Errors.{Result, ok}
use derico_sandbox.Image.Entries.{
  CacheEntry, Clock, Command, Instance, cache_prefix, commit, delete_instance, rename_instance,
  set_config,
}
use derico_sandbox.Image.Keys.{StageKey}
use derico_sandbox.Image.Settings.{Settings}
use derico_sandbox.Image.Stages.{GuestFiles}
use derico_sandbox.Incus.Client.{list_instances, write_config, delete, rename}
use derico_sandbox.Incus.Values.{or_empty, shown_name}
use derico_sandbox.Json.{Value}
use derico_sandbox.Prelude.{
  Bool, List, Option, String, [], false, map, nat_Eq, not, string_Eq, true, ℕ, ◌∷◌,
}
use derico_sandbox.Prelude.Dict.{Dict, get}
use derico_sandbox.Errors
use derico_sandbox.Image.Entries
use derico_sandbox.System.{◌>>=◌, ◌>>◌, Action, Event, System, clock_read, lift, push, when, return}

pub record Workshop : Type 0 where
  pub clock : Clock
  pub guest : GuestFiles
  pub settings : Settings
  -- `self.now()`, in microseconds, and `secrets.token_hex(3)`, after this history
  pub wall_clock : List Event → ℕ
  pub token : List Event → String
  -- no other process holds the lock
  pub is_unlocked : List Event → Bool

module _ (system : System) where
  -- `{key: str(value) for key, value in config.items()}`
  unfoldable pub shown_config : Dict String Value → Dict String String
  shown_config [] = []
  shown_config ((k, v) ∷ d) = (k, str_of system.platform v) ∷ shown_config d

  -- What `_entry` reads of a record.
  unfoldable pub listed_instance : Dict String Value → Result Instance
  listed_instance d = Errors.◌>>=◌ (or_empty system (get d "config")) λ config.
      ok (record { name = shown_name system.platform (get d "name"); config = shown_config config })

  unfoldable pub listed_all : List (Dict String Value) → Result (List Instance)
  listed_all [] = ok []
  listed_all (d ∷ ds) =
      Errors.◌>>=◌ (listed_instance d) λ i. Errors.◌>>=◌ (listed_all ds) λ is. ok (i ∷ is)

  unfoldable pub list_named : String → Action (List Instance)
  list_named prefix = do records ← list_instances system prefix; lift (listed_all records)

  abbrev shown_names : List (Dict String Value) → List String
  shown_names records =
      map (λ (d : Dict String Value). shown_name system.platform (get d "name")) records

  -- `ImageCache.workers` and `ImageCache.legacy_builders`
  unfoldable pub workers : Action (List String)
  workers = do records ← list_instances system "sandboxsh-build-"; return (shown_names records)

  unfoldable pub legacy_builders : Action (List String)
  legacy_builders = do
    records ← list_instances system "sandboxsh-image-builder-"
    return (shown_names records)

  -- One call of Incus; `check` is that of `delete_instance`.
  unfoldable pub perform : Bool → Command → Action (Unit {0})
  perform check (set_config worker values) = write_config system worker values
  perform check (delete_instance instance_) = delete system instance_ check
  perform check (rename_instance worker instance_) = rename system worker instance_

  unfoldable pub perform_all : Bool → List Command → Action (Unit {0})
  perform_all check [] = return tt
  perform_all check (c ∷ cs) = perform check c >> perform_all check cs

  -- `ImageCache.discard`
  unfoldable pub discard : String → Bool → Action (Unit {0})
  discard worker keep = when (not keep) (delete system worker false)

  module _ (workshop : Workshop) where
    -- `self.now()`
    unfoldable pub wall_time : Action ℕ
    wall_time s = (ok (workshop.wall_clock (clock_read ∷ s.history)), push clock_read s)

    -- `ImageCache.entries`
    unfoldable pub cache_entries : Action (Dict String CacheEntry)
    cache_entries = do
      listing ← list_named cache_prefix
      return (Entries.entries system.platform workshop.clock listing)

    -- `ImageCache.commit`
    unfoldable pub commit_worker :
        String → StageKey → String → List String → Option CacheEntry → Action CacheEntry
    commit_worker worker step source build_allow existing = do
      created ← wall_time
      let (commands, entry) =
          commit system.platform workshop.clock worker step source build_allow existing created
      perform_all false commands
      return entry

    -- `ImageCache.prune`
    unfoldable pub prune_cache : List String → Action (List String)
    prune_cache keep = do
      listing ← list_named cache_prefix
      let (commands, removed) = Entries.prune system.platform workshop.clock keep listing
      perform_all true commands
      return removed
