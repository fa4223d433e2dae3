-- ===== src/Image/Build/DryRun.antt =====
-- `image build --dry-run` asks Incus and changes nothing.
use derico_sandbox.Image.Report.{plan_lines}
use derico_sandbox.Image.BuildPlan.{BuildPlan}
use derico_sandbox.Errors.{Error}
use derico_sandbox.Image.Keys.{BuildInputs, StageKey}
use derico_sandbox.Json.{Value}
use derico_sandbox.Image.Builder.{
  resolve_pin, stored_manifest, Request, listed_steps, pin_of, pin_source, steps_for, plan, held,
}
use derico_sandbox.Image.Cache.{Workshop, wall_time, cache_entries, list_named}
use derico_sandbox.Image.Manifest.{Manifest, PinnedSource}
use derico_sandbox.Incus.Client.{image_property, decoded, list_instances}
use derico_sandbox.Incus.Images.{resolve_cached, ResolvedImage, told_or_cached, resolve_vm_image}
use derico_sandbox.Incus.Quiet.{is_incus, word}
use derico_sandbox.Prelude.{
  Bool, List, String, [], contains, false, nat_Eq, refl, string_Eq, true, ◌&&◌, ◌==◌, ◌||◌, ◌∷◌,
  ◌≡◌, Option, none, some, ◌<>◌, Bool-cases, inl, inr,
}
use derico_sandbox.System.Leaves.{Leaves, leaves, >>=-Leaves}
use derico_sandbox.System.Effects.{Only, >>=-Only, effects}
use derico_sandbox.Image.Build.{build, carry_out}
use derico_sandbox.System.{
  ◌>>=◌, ◌>>◌, Event, System, clock_read, echoed, ran, say, say_all, Action, State, lift,
}

-- `incus … list`, and `incus … image info`, `list` or `get-property`
abbrev is_query_command : List String → Bool
is_query_command args =
    is_incus args
    && (word 4 args == "list"
        || (word 4 args == "image"
            && contains ("info" ∷ "list" ∷ "get-property" ∷ []) (word 5 args)))

-- A question to Incus, a line that is shown, or a look at the clock.
abbrev pub is_query : Event → Bool
is_query (ran args reply) = is_query_command args
is_query (echoed line) = true
is_query clock_read = true
is_query _ = false

-- The second history is the first one with events on top that pass the test.
pub data Grown (test : Event → Bool) (h : List Event) : List Event → Type 0 where
  same : Grown test h h
  more :
      (e : Event) (later : List Event)
      → test e ≡ true
      → Grown test h later
      → Grown test h (e ∷ later)

-- Between the states there are only questions, and the files are as they were.
pub record AsksOnly (s t : State) : Type 0 where
  pub history : Grown is_query s.history t.history
  pub ledger : t.ledger ≡ s.ledger
  pub registry : t.registry ≡ s.registry
  pub manifest : t.manifest ≡ s.manifest

asks_only {ℓ} :
    {X : Type ℓ} (act : Action X) (s : State)
    → Only is_query act
    → Leaves act
    → AsksOnly s (act s).1
asks_only act s only left = record {
  history = only.keeps (Grown is_query s.history) (λ h e q g. more e h q g) s same;
  ledger = left.ledger s;
  registry = left.registry s;
  manifest = left.manifest s;
}

module _ (system : System) (workshop : Workshop) where
  pub wall_time-Only : Only is_query (wall_time system workshop)
  unfolding wall_time
  wall_time-Only = record { keeps = λ I step s i. step s.history clock_read refl i }

  decoded-Only : (raised : Error) (o : Option Value) → Only is_query (decoded system raised o)
  decoded-Only raised none = search effects
  decoded-Only raised (some v) = search effects

  stored_manifest-Only : Only is_query (stored_manifest system workshop)
  unfolding stored_manifest
  stored_manifest-Only = record { keeps = λ I step s i. i }

  image_property-Only :
      (image property : String) → Only is_query (image_property system image property)
  unfolding image_property
  image_property-Only image property = search effects

  told_or_cached-Only :
      (source : String) (o : Option ResolvedImage) → Only is_query (told_or_cached system source o)
  unfolding resolve_cached
  told_or_cached-Only source (some image) = search effects
  told_or_cached-Only source none = search effects

  resolve_vm_image-Only : (source : String) → Only is_query (resolve_vm_image system source)
  unfolding resolve_vm_image
  resolve_vm_image-Only source = search (effects, told_or_cached-Only) depth 12

  resolve_pin-Only :
      (m : Manifest) (source : String) → Only is_query (resolve_pin system workshop m source)
  unfolding resolve_pin
  resolve_pin-Only m source = search (effects, resolve_vm_image-Only, wall_time-Only)

  pin_of-Only :
      (m : Manifest) (source : String) (refresh : Bool) (o : Option PinnedSource)
      → Only is_query (pin_of system workshop m source refresh o)
  pin_of-Only m source refresh (some pinned) = search (effects, resolve_pin-Only)
  pin_of-Only m source refresh none = resolve_pin-Only m source

  pub list_instances-Only : (prefix : String) → Only is_query (list_instances system prefix)
  unfolding list_instances
  list_instances-Only prefix = search (effects, decoded-Only) depth 12

  list_named-Only : (prefix : String) → Only is_query (list_named system prefix)
  unfolding list_named
  list_named-Only prefix = search (effects, list_instances-Only)

  steps_for-Only :
      (request : Request) (inputs : BuildInputs) (ks : List StageKey)
      (published_key : Option String)
      → Only is_query (steps_for system workshop request inputs ks published_key)
  unfolding steps_for listed_steps cache_entries
  steps_for-Only request inputs ks published_key = search (effects, list_named-Only) depth 12

  pub plan-Only : (request : Request) → Only is_query (plan system workshop request)
  unfolding plan pin_source
  plan-Only request =
      search
        (
          effects, stored_manifest-Only, pin_of-Only, wall_time-Only, image_property-Only,
          steps_for-Only,
        )
        depth 24

  pub lines-Only :
      (prefix : String) (ls : List String) → Only is_query (say_all (λ line. prefix <> line) ls)
  unfolding say_all
  lines-Only prefix [] = search effects
  lines-Only prefix (l ∷ ls) =
      >>=-Only is_query (say (prefix <> l)) (λ _. say_all (λ line. prefix <> line) ls)
        (search effects) (λ _. lines-Only prefix ls)

  -- The same statements leave the files of the host's state alone.
  wall_time-Leaves : Leaves (wall_time system workshop)
  unfolding wall_time
  wall_time-Leaves = record { ledger = λ s. refl; registry = λ s. refl; manifest = λ s. refl }

  decoded-Leaves : (raised : Error) (o : Option Value) → Leaves (decoded system raised o)
  decoded-Leaves raised none = search leaves
  decoded-Leaves raised (some v) = search leaves

  stored_manifest-Leaves : Leaves (stored_manifest system workshop)
  unfolding stored_manifest
  stored_manifest-Leaves = record { ledger = λ s. refl; registry = λ s. refl; manifest = λ s. refl }

  image_property-Leaves : (image property : String) → Leaves (image_property system image property)
  unfolding image_property
  image_property-Leaves image property = search leaves

  told_or_cached-Leaves :
      (source : String) (o : Option ResolvedImage) → Leaves (told_or_cached system source o)
  unfolding resolve_cached
  told_or_cached-Leaves source (some image) = search leaves
  told_or_cached-Leaves source none = search leaves

  resolve_vm_image-Leaves : (source : String) → Leaves (resolve_vm_image system source)
  unfolding resolve_vm_image
  resolve_vm_image-Leaves source = search (leaves, told_or_cached-Leaves) depth 12

  resolve_pin-Leaves :
      (m : Manifest) (source : String) → Leaves (resolve_pin system workshop m source)
  unfolding resolve_pin
  resolve_pin-Leaves m source = search (leaves, resolve_vm_image-Leaves, wall_time-Leaves)

  pin_of-Leaves :
      (m : Manifest) (source : String) (refresh : Bool) (o : Option PinnedSource)
      → Leaves (pin_of system workshop m source refresh o)
  pin_of-Leaves m source refresh (some pinned) = search (leaves, resolve_pin-Leaves)
  pin_of-Leaves m source refresh none = resolve_pin-Leaves m source

  list_named-Leaves : (prefix : String) → Leaves (list_named system prefix)
  unfolding list_named list_instances
  list_named-Leaves prefix = search (leaves, decoded-Leaves) depth 12

  steps_for-Leaves :
      (request : Request) (inputs : BuildInputs) (ks : List StageKey)
      (published_key : Option String)
      → Leaves (steps_for system workshop request inputs ks published_key)
  unfolding steps_for listed_steps cache_entries
  steps_for-Leaves request inputs ks published_key = search (leaves, list_named-Leaves) depth 12

  plan-Leaves : (request : Request) → Leaves (plan system workshop request)
  unfolding plan pin_source
  plan-Leaves request =
      search
        (
          leaves, stored_manifest-Leaves, pin_of-Leaves, wall_time-Leaves, image_property-Leaves,
          steps_for-Leaves,
        )
        depth 24

  lines-Leaves : (prefix : String) (ls : List String) → Leaves (say_all (λ line. prefix <> line) ls)
  unfolding say_all
  lines-Leaves prefix [] = search leaves
  lines-Leaves prefix (l ∷ ls) =
      >>=-Leaves (say (prefix <> l)) (λ _. say_all (λ line. prefix <> line) ls) (search leaves)
        (λ _. lines-Leaves prefix ls)

  told-Only :
      (p : BuildPlan) (allow_stale publish : Bool) (before_run : Action (Unit {0}))
      (ls : List String)
      → Only is_query (
          say_all (λ line. "[dry-run] " <> line) ls
          >> carry_out system workshop p allow_stale publish true before_run)
  unfolding carry_out
  told-Only p allow_stale publish before_run ls = search (effects, lines-Only)

  told-Leaves :
      (p : BuildPlan) (allow_stale publish : Bool) (before_run : Action (Unit {0}))
      (ls : List String)
      → Leaves (
          say_all (λ line. "[dry-run] " <> line) ls
          >> carry_out system workshop p allow_stale publish true before_run)
  unfolding carry_out
  told-Leaves p allow_stale publish before_run ls = search (leaves, lines-Leaves)

  -- A dry run of a build does nothing but ask Incus for images and instances, show lines and read the
  -- clock, and leaves the ledger, the registry and the manifest as they were, however it ends.
  pub build-AsksOnly :
      (request : Request) (allow_stale publish wait : Bool) (before_run : Action (Unit {0}))
      (s : State)
      → AsksOnly s (build system workshop request allow_stale publish true wait before_run s).1
  unfolding build held
  build-AsksOnly request allow_stale publish wait before_run s =
      let body = plan system workshop request >>= λ p. lift (plan_lines p) >>= λ ls.
      say_all (λ line. "[dry-run] " <> line) ls
      >> carry_out system workshop p (allow_stale || request.refresh) publish true before_run in
      elim (Bool-cases (wait || workshop.is_unlocked s.history)) [
        | inl free ↦ rw free (
            asks_only body s (search (effects, plan-Only, told-Only))
              (search (leaves, plan-Leaves, told-Leaves)))
        | inr taken ↦
            rw taken (record { history = same; ledger = refl; registry = refl; manifest = refl })
      ]
