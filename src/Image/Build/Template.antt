-- ===== src/Image/Build/Template.antt =====
-- The template that a run publishes is the cache entry of the plan's build key.
use derico_sandbox.Image.Workers.{
  build_stage, build_stages, fail_stage, first_worker, make_stage, new_worker, parent_name,
  replaced_entry,
}
use derico_sandbox.Errors.{Result, err, ok}
use derico_sandbox.Incus.Client.{image_property}
use derico_sandbox.Image.BuildPlan.{
  BuildPlan, entry_at, last_key, step_keys, reused_entry, to_build, build_key, is_noop,
}
use derico_sandbox.Image.Builder.{
  Request, plan, pin_source, stored_manifest, requested_manifest, inputs_for, published_step,
  steps_for, listed_steps,
}
use derico_sandbox.Image.Cache.{
  Workshop, cache_entries, list_named, commit_worker, wall_time, perform_all,
}
use derico_sandbox.Image.Entries.{
  CacheEntry, Clock, cache_prefix, Instance, commit, entries, entries_onto, entry_of,
}
use derico_sandbox.Platform.{Platform}
use derico_sandbox.Image.Keys.{BuildInputs, StageKey, stage_keys}
use derico_sandbox.Image.Plan.{PlanStep, text_option_eq, hit_count, plan_from, plan_steps}
use derico_sandbox.Prelude.Dict.{Dict, get, put, get-put}
use derico_sandbox.Prelude.{
  arith, map, not, ◌&&◌, ◌⊎◌, All, Bool-cases, List, Option, String, [], ap, drop, inl, inr, refl,
  some, true, ◌∙◌, ◌∷◌, ◌≡◌, false, Bool, nat_Eq, none, string_Eq, if◌then◌else◌,
}
use derico_sandbox.Security.Acl.{AclPolicy}
use derico_sandbox.System.Leaves.{Returns, >>=-Returns, Returns-anything}
use derico_sandbox.System.{◌>>=◌, State, System, Action, attempt, say, lift, return}

-- `entry.key`, where there is an entry
abbrev pub entry_key : Option CacheEntry → Option String
entry_key none = none
entry_key (some e) = some e.key

-- A step that is a hit has an entry of its own key.
abbrev AllReused : List PlanStep → Type 0
AllReused steps = All (λ (s : PlanStep). s.hit ≡ true → entry_key s.entry ≡ some s.key.key) steps

-- What the loop over the steps returns, from this parent.
abbrev pub Ends : List PlanStep → Option CacheEntry → Option CacheEntry → Type 0
Ends [] parent o = o ≡ parent
Ends (s ∷ ss) parent o = entry_key o ≡ last_key (step_keys (s ∷ ss))

sealed_behind :
    (ss : List PlanStep) (o : Option CacheEntry)
    → AllReused ss
    → Ends (drop (hit_count ss) ss) (entry_at (hit_count ss) ss) o
    → entry_key o ≡ last_key (step_keys ss)
unfolding hit_count entry_at last_key
sealed_behind [] o reused ends = ap entry_key ends
sealed_behind (s ∷ []) o reused ends = elim (Bool-cases s.hit) [
  | inl hit ↦ let last = rw hit at ends in ap entry_key last ∙ reused.0 hit
  | inr miss ↦ let built = rw miss at ends in built
]
sealed_behind (s ∷ t ∷ ss) o reused ends = elim (Bool-cases s.hit) [
  | inl hit ↦ elim (Bool-cases t.hit) [
    | inl again ↦
        let beyond = rw (hit, again) at ends in sealed_behind (t ∷ ss) o reused.1 (rw again beyond)
    | inr miss ↦ let built = rw (hit, miss) at ends in built
  ]
  | inr miss ↦ let built = rw miss at ends in built
]

abbrev IsKeyed : Dict String CacheEntry → Type 0
IsKeyed es = (k : String) (e : CacheEntry) → get es k ≡ some e → e.key ≡ k

entries_onto-IsKeyed :
    (platform : Platform) (clock : Clock) (d : Dict String CacheEntry) (listing : List Instance)
    → IsKeyed d
    → IsKeyed (entries_onto platform clock d listing)
unfolding entries_onto
entries_onto-IsKeyed platform clock d [] keyed = keyed
entries_onto-IsKeyed platform clock d (i ∷ is) keyed =
    elim (entry_of platform clock i)
      as (λ o. IsKeyed (elim o [
        | some entry ↦ entries_onto platform clock (put d entry.key entry) is
        | none ↦ entries_onto platform clock d is
      ])) [
        | some entry ↦ entries_onto-IsKeyed platform clock (put d entry.key entry) is λ k e held.
            ground (arith, keyed k e, get-put d entry.key k entry, string_Eq.beq_iff k entry.key)
        | none ↦ entries_onto-IsKeyed platform clock d is keyed
      ]

nothing : IsKeyed []
unfolding get
nothing k e held = ground arith

-- What the cache finds under a key has it.
abbrev IsOwn : Option CacheEntry → String → Type 0
IsOwn none key = Unit
IsOwn (some e) key = e.key ≡ key

get-IsOwn : (es : Dict String CacheEntry) (key : String) → IsKeyed es → IsOwn (get es key) key
get-IsOwn es key keyed =
    elim (get es key) as (λ o. get es key ≡ o → IsOwn o key) [
      | none ↦ λ eq. tt
      | some e ↦ λ eq. keyed key e eq
    ]
      refl

plan_from-AllReused :
    (es : Dict String CacheEntry) (source : String) (hosts : List String) (skip missed : Bool)
    (keys : List StageKey)
    → IsKeyed es
    → AllReused (plan_from es source hosts skip missed keys)
unfolding plan_from
plan_from-AllReused es source hosts skip missed [] keyed = tt
plan_from-AllReused es source hosts skip missed (k ∷ ks) keyed = ground (
  arith,
  plan_from-AllReused es source hosts skip false ks keyed,
  plan_from-AllReused es source hosts skip true ks keyed,
  get-IsOwn es k.key keyed,
)

abbrev IsDone : BuildPlan → State → Type 0
IsDone p t = (is_noop p ≡ true) ⊎ AllReused p.steps

weaken {ℓ} :
    {X : Type ℓ} (Q R : X → State → Type 0) (r : Result X × State)
    → Returns Q r
    → ((x : X) (t : State) → Q x t → R x t)
    → Returns R r
weaken Q R (ok x, t) q n = n x t q
weaken Q R (err e, t) q n = tt

-- The rest of a block, behind a statement whose value is not asked for.
behind {ℓ κ} :
    {X : Type ℓ} {Y : Type κ} (Q : Y → State → Type 0) (first : Action X) (next : X → Action Y)
    → ((x : X) (t : State) → Returns Q (next x t))
    → (s : State) → Returns Q ((first >>= next) s)
behind Q first next n s =
    >>=-Returns (λ x t. Unit {0}) Q (first s) next (Returns-anything (first s)) (λ x t u. n x t)

module _ (system : System) (workshop : Workshop) (p : BuildPlan) (policy : AclPolicy) where
  abbrev HasKey : String → CacheEntry → State → Type 0
  HasKey key e t = e.key ≡ key

  commit-HasKey :
      (worker : String) (key : StageKey) (source : String) (hosts : List String)
      (existing : Option CacheEntry) (s : State)
      → Returns (HasKey key.key) (commit_worker system workshop worker key source hosts existing s)
  unfolding commit_worker commit
  commit-HasKey worker key source hosts existing =
      behind _ (wall_time system workshop) _
        λ created. behind _ (perform_all system false _) _ λ done t. refl

  build_stage-HasKey :
      (key : StageKey) (parent : Option CacheEntry) (s : State)
      → Returns (HasKey key.key) (build_stage system workshop p policy key parent s)
  unfolding build_stage
  build_stage-HasKey key parent = behind _ (new_worker system workshop key) _ λ worker.
      behind (HasKey key.key) (say _) _ λ told.
        behind (HasKey key.key) (first_worker system workshop p (parent_name parent) worker) _
          λ begun.
            behind (HasKey key.key)
              (attempt (make_stage system workshop p policy key.stage (parent_name parent) worker)
                (fail_stage system workshop key.stage worker workshop.settings.keep_failed))
              _
              λ made.
                commit-HasKey worker key p.pinned.fingerprint p.inputs.build_allow
                  (replaced_entry system workshop p key)

  build_stages-Ends :
      (steps : List PlanStep) (parent : Option CacheEntry) (s : State)
      → Returns (λ o t. Ends steps parent o) (build_stages system workshop p policy steps parent s)
  unfolding build_stages last_key
  build_stages-Ends [] parent s = refl
  build_stages-Ends (step ∷ []) parent s =
      >>=-Returns (HasKey step.key.key) (λ o t. entry_key o ≡ some step.key.key)
        (build_stage system workshop p policy step.key parent s) _
        (build_stage-HasKey step.key parent s) (λ e t alike. ap some alike)
  build_stages-Ends (step ∷ next ∷ steps) parent s =
      behind _ (build_stage system workshop p policy step.key parent) _
        (λ e t. build_stages-Ends (next ∷ steps) (some e) t) s

step_keys-published_step :
    (system : System) (workshop : Workshop) (ks : List StageKey)
    → step_keys (map (published_step system workshop) ks) ≡ ks
step_keys-published_step system workshop [] = refl
step_keys-published_step system workshop (k ∷ ks) =
    ap (λ rest. k ∷ rest) (step_keys-published_step system workshop ks)

module _ (system : System) (workshop : Workshop) (request : Request) where
  -- Either the published image is that of the steps, or they reuse what is theirs.
  abbrev IsReady : Option String → List PlanStep → Type 0
  IsReady published_key steps =
      ((not request.no_cache && text_option_eq published_key (last_key (step_keys steps))) ≡ true)
      ⊎ AllReused steps

  cache_entries-IsKeyed :
      (s : State) → Returns (λ es t. IsKeyed es) (cache_entries system workshop s)
  unfolding cache_entries entries
  cache_entries-IsKeyed =
      behind (λ es t. IsKeyed es) (list_named system cache_prefix) _
        λ listing t. entries_onto-IsKeyed system.platform workshop.clock [] listing nothing

  steps_for-IsReady :
      (inputs : BuildInputs) (ks : List StageKey) (published_key : Option String) (s : State)
      → Returns
          (λ r t. IsReady published_key r.0)
          (steps_for system workshop request inputs ks published_key s)
  unfolding steps_for listed_steps plan_steps
  steps_for-IsReady inputs ks published_key s =
      elim (not request.no_cache && text_option_eq published_key (last_key ks))
          as (λ b.
            (not request.no_cache && text_option_eq published_key (last_key ks)) ≡ b
            → Returns (λ r t. IsReady published_key r.0)
                ((if b
                    then return (map (published_step system workshop) ks, [])
                    else listed_steps system workshop request inputs ks)
                  s)) [
                    | true ↦ λ eq. inl (rw (step_keys-published_step system workshop ks) eq)
                    | false ↦ λ eq.
                        >>=-Returns (λ es t. IsKeyed es) (λ r t. IsReady published_key r.0)
                          (cache_entries system workshop s) _ (cache_entries-IsKeyed s)
                          λ es t keyed. inr (
                            plan_from-AllReused es inputs.source_fingerprint inputs.build_allow
                              request.no_cache false ks keyed)
                  ]
        refl

  plan-IsReady : (s : State) → Returns IsDone (plan system workshop request s)
  unfolding plan is_noop build_key
  plan-IsReady = behind IsDone (stored_manifest system workshop) _ λ loaded.
      behind IsDone (lift (requested_manifest system workshop loaded request)) _ λ refreshed.
        behind IsDone (pin_source system workshop refreshed.0 request.source request.refresh) _
          λ pin. behind IsDone (lift (inputs_for system workshop pin.0 pin.1)) _ λ inputs.
            behind IsDone (wall_time system workshop) _ λ now.
              behind IsDone (image_property system request.alias "user.sandboxsh.build_key") _
                λ published_key. λ t.
                  >>=-Returns (λ r u. IsReady published_key r.0) IsDone
                    (steps_for system workshop request inputs
                      (stage_keys system.platform workshop.guest inputs) published_key t)
                    _
                    (steps_for-IsReady inputs (stage_keys system.platform workshop.guest inputs)
                      published_key t)
                    (λ r u ready. ready)

-- A plan that `plan` returns is up to date, or the loop of `run` over its stages, under any policy and in
-- any state, ends, if it returns, with the cache entry whose key is the plan's build key.
pub plan-build_stages :
    (system : System) (workshop : Workshop) (request : Request) (policy : AclPolicy) (s t : State)
    → Returns
        (λ p u.
          (is_noop p ≡ true)
          ⊎ Returns
              (λ o v. entry_key o ≡ build_key p)
              (build_stages system workshop p policy (to_build p) (reused_entry p) t))
        (plan system workshop request s)
unfolding to_build reused_entry build_key
plan-build_stages system workshop request policy s t =
    weaken IsDone _ (plan system workshop request s) (plan-IsReady system workshop request s)
      λ p u ready. elim ready [
        | inl noop ↦ inl noop
        | inr reused ↦ inr (
            weaken (λ o v. Ends (to_build p) (reused_entry p) o) (λ o v. entry_key o ≡ build_key p)
              (build_stages system workshop p policy (to_build p) (reused_entry p) t)
              (build_stages-Ends system workshop p policy (to_build p) (reused_entry p) t)
              λ o v ends. sealed_behind p.steps o reused ends)
      ]
