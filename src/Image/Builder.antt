-- ===== src/Image/Builder.antt =====
-- imagebuild.py: `BuildLock`, and `_helper_hashes`, `_pin_source`, `inputs_for`, `plan`, `chains` and `prune` of
-- `ImageBuilder`, over the commands of Incus and the manifest in the state.
use derico_sandbox.Errors
use derico_sandbox.Image.Manifest.{load_manifest, manifest_document}
use derico_sandbox.System.{◌>>=◌, Action, System, lift, return}
use derico_sandbox.Incus.Images.{ResolvedImage, resolve_vm_image}
use derico_sandbox.Incus.Client.{image_property}
use derico_sandbox.Image.Cache.{Workshop, wall_time, cache_entries, prune_cache}
use derico_sandbox.Image.BuildPlan.{BuildPlan, last_key}
use derico_sandbox.FilePath
use mathlib.Core.Option
use derico_sandbox.Errors.{
  Result, err, image_error, missing_helper, negative_generation, ok, reject, unknown_stage,
  lock_held,
}
use derico_sandbox.FilePath.{FilePath}
use derico_sandbox.Image.Keys.{BuildInputs, StageKey, stage_keys}
use derico_sandbox.Image.Manifest.{Manifest, PinnedSource}
use derico_sandbox.Image.Stages.{Stage, helper_files, load_stages, stage_names}
use derico_sandbox.Prelude.{
  Bool, List, Option, String, [], contains, false, filter, if◌then◌else◌, map, nat_Eq, none, not,
  some, string_Eq, suc, true, zero, ℕ, ◌&&◌, ◌++◌, ◌||◌, ◌∷◌,
}
use derico_sandbox.Prelude.Dict.{Dict, get, put}
use derico_sandbox.Prelude.Int.{negsuc, pos, ℤ}
use derico_sandbox.Image.Entries.{CacheEntry, Clock}
use derico_sandbox.Image.Plan.{published, PlanStep, int_eq, plan_steps, text_option_eq}

pub record Request : Type 0 where
  pub alias : String
  pub source : String
  pub refresh : Bool
  pub refresh_from : Option String
  pub no_cache : Bool
  pub generation : Option ℤ

abbrev bump : ℤ → ℤ
bump (pos n) = pos (suc n)
bump (negsuc zero) = pos zero
bump (negsuc (suc n)) = negsuc n

unfoldable pub from_resolved : Clock → ℕ → ResolvedImage → PinnedSource
from_resolved clock now image = record {
  fingerprint = image.fingerprint;
  architecture = image.architecture;
  serial = image.serial;
  pinned = clock.date now;
}

-- `if generation is not None: …`: the manifest, and `dirty`.
unfoldable pub set_generation : Option ℤ → Manifest → Result (Manifest × Bool)
set_generation none m = ok (m, false)
set_generation (some (negsuc n)) m = err (image_error negative_generation)
set_generation (some (pos n)) m =
    ok (record m { generation = pos n }, not (int_eq m.generation (pos n)))

unfoldable pub refresh_all : Bool → Manifest × Bool → Manifest × Bool
refresh_all refresh (m, dirty) =
    if refresh then (record m { generation = bump m.generation }, true) else (m, dirty)

unfoldable pub refresh_stage :
    Option String → List Stage → Manifest × Bool → Result (Manifest × Bool)
refresh_stage none stages (m, dirty) = ok (m, dirty)
refresh_stage (some stage) stages (m, dirty) =
    let names = stage_names stages in
    let old = Option.get_or (get m.stage_generations stage) (pos zero) in
    Errors.◌>>=◌ (reject (not (contains names stage)) (image_error (unknown_stage stage names)))
      λ _. ok (record m { stage_generations = put m.stage_generations stage (bump old) }, true)

module _ (system : System) (workshop : Workshop) where
  -- `Manifest.load`
  unfoldable pub stored_manifest : Action Manifest
  stored_manifest s = (ok (load_manifest system.platform s.manifest), s)

  -- `Manifest.save`
  unfoldable pub save_manifest : Manifest → Action (Unit {0})
  save_manifest m s = (ok tt, record s { manifest = some (manifest_document m) })

  -- `ImageBuilder.stages`
  abbrev stages_of : Result (List Stage)
  stages_of = load_stages system.platform workshop.guest []

  unfoldable pub helper_hashes : List String → Result (List String)
  helper_hashes [] = ok []
  helper_hashes (filename ∷ rest) =
      let path = workshop.settings.helper_path filename in
      Errors.◌>>=◌
        (reject (not (workshop.guest.is_file path))
          (image_error (missing_helper (FilePath.render path))))
        λ _. Errors.◌>>=◌ (helper_hashes rest) λ hashes. ok (workshop.guest.file_hash path ∷ hashes)

  unfoldable pub resolve_pin : Manifest → String → Action (Manifest × PinnedSource × Bool)
  resolve_pin m source = do
    image ← resolve_vm_image system source
    now ← wall_time system workshop
    let pinned = from_resolved workshop.clock now image
    return (record m { sources = put m.sources source pinned }, pinned, true)

  abbrev pub pin_of :
      Manifest → String → Bool → Option PinnedSource → Action (Manifest × PinnedSource × Bool)
  pin_of m source refresh (some pinned) =
      if refresh then resolve_pin m source else return (m, pinned, false)
  pin_of m source refresh none = resolve_pin m source

  -- `_pin_source`: the manifest it leaves, the source, and whether it was resolved.
  unfoldable pub pin_source : Manifest → String → Bool → Action (Manifest × PinnedSource × Bool)
  pin_source m source refresh = pin_of m source refresh (get m.sources source)

  unfoldable pub inputs_for : Manifest → PinnedSource → Result BuildInputs
  inputs_for m pinned =
      let settings = workshop.settings in
      Errors.◌>>=◌ stages_of λ stages. Errors.◌>>=◌ (helper_hashes helper_files) λ hashes.
        ok (record {
          source_fingerprint = pinned.fingerprint;
          architecture = pinned.architecture;
          uid = settings.uid;
          gid = settings.gid;
          stages = stages;
          helper_hashes = hashes;
          build_allow = settings.build_allow;
          generation = m.generation;
          stage_generations = m.stage_generations;
        })

  abbrev pub published_step : StageKey → PlanStep
  published_step key = record { key = key; hit = true; reason = published; entry = none }

  unfoldable pub listed_steps :
      Request → BuildInputs → List StageKey → Action (List PlanStep × Dict String CacheEntry)
  listed_steps request inputs ks = do
    es ← cache_entries system workshop
    return (plan_steps es inputs.source_fingerprint inputs.build_allow request.no_cache ks, es)

  -- The steps and the entries: the published image answers for the whole chain, or the cache is listed.
  unfoldable pub steps_for :
      Request
      → BuildInputs
      → List StageKey
      → Option String
      → Action (List PlanStep × Dict String CacheEntry)
  steps_for request inputs ks published_key =
      if not request.no_cache && text_option_eq published_key (last_key ks)
      then return (map published_step ks, [])
      else listed_steps request inputs ks

  -- The manifest as the options of the request change it, and whether they do.
  unfoldable pub requested_manifest : Manifest → Request → Result (Manifest × Bool)
  requested_manifest loaded request = Errors.◌>>=◌ (set_generation request.generation loaded) λ set.
      Errors.◌>>=◌ stages_of
        λ stages. refresh_stage request.refresh_from stages (refresh_all request.refresh set)

  -- `ImageBuilder.plan`
  unfoldable pub plan : Request → Action BuildPlan
  plan request = do
    loaded ← stored_manifest
    refreshed ← lift (requested_manifest loaded request)
    (m, pinned, resolved) ← pin_source refreshed.0 request.source request.refresh
    inputs ← lift (inputs_for m pinned)
    now ← wall_time system workshop
    published_key ← image_property system request.alias "user.sandboxsh.build_key"
    steps ←
        steps_for request inputs (stage_keys system.platform workshop.guest inputs) published_key
    return (record {
      alias = request.alias;
      source = request.source;
      pinned = pinned;
      inputs = inputs;
      steps = steps.0;
      published_key = published_key;
      manifest = m;
      no_cache = request.no_cache;
      now = now;
      max_age_days = workshop.settings.max_age_days;
      dirty_manifest = refreshed.1 || resolved;
      entries = steps.1;
    })

  abbrev chain_of : BuildInputs → List String
  chain_of inputs = map (λ (k : StageKey). k.key) (stage_keys system.platform workshop.guest inputs)

  -- The keys of the `n` generations before `generation`, while they are not negative.
  unfoldable pub earlier_keys : BuildInputs → ℤ → ℕ → List String
  earlier_keys inputs generation zero = []
  earlier_keys inputs (pos (suc g)) (suc n) =
      chain_of (record inputs { generation = pos g }) ++ earlier_keys inputs (pos g) n
  earlier_keys inputs _ (suc n) = []

  abbrev pub resolve_source : String → Action PinnedSource
  resolve_source source = do
    image ← resolve_vm_image system source
    now ← wall_time system workshop
    return (from_resolved workshop.clock now image)

  unfoldable pub chain_source : Manifest → String → Action PinnedSource
  chain_source m source = elim (get m.sources source) [
    | some pinned ↦ return pinned
    | none ↦ resolve_source source
  ]

  -- `ImageBuilder.chains`
  unfoldable pub chains : String → ℕ → Action (List String × List String)
  chains source previous = do
    m ← stored_manifest
    pinned ← chain_source m source
    inputs ← lift (inputs_for m pinned)
    let current = chain_of inputs
    let earlier = earlier_keys inputs inputs.generation previous
    return (current, filter (λ k. not (contains current k)) earlier)

  -- `BuildLock.held`: a process that waits goes on once the lock is free.
  unfoldable pub held {ℓ} : {X : Type ℓ} → Bool → Action X → Action X
  held wait body s =
      if wait || workshop.is_unlocked s.history then body s else (err (image_error lock_held), s)

  -- `ImageBuilder.prune`
  unfoldable pub prune_chains : String → ℕ → Bool → Bool → Action (List String)
  prune_chains source keep_generations all_ wait = held wait (
      chains source (if all_ then 0 else keep_generations) >>= λ kept.
      prune_cache system workshop (kept.0 ++ kept.1))
