-- ===== src/Image/BuildPlan.antt =====
-- imagebuild.py: `BuildPlan`, and what is read off its steps.
use derico_sandbox.Errors.{Result, crash, err, ok, overflow_error, ◌>>=◌}
use derico_sandbox.Image.Keys.{BuildInputs, StageKey}
use derico_sandbox.Image.Manifest.{Manifest, PinnedSource}
use derico_sandbox.Image.Stages.{Stage}
use derico_sandbox.Prelude.{
  drop, Bool, List, Option, String, [], get_elem?, if◌then◌else◌, ltb, map, nat_Eq, none, not, some,
  string_Eq, suc, zero, ℕ, ◌&&◌, ◌*◌, ◌∷◌,
}
use derico_sandbox.Prelude.Dict.{Dict}
use derico_sandbox.Image.Entries.{CacheEntry, age_of}
use derico_sandbox.Image.Plan.{PlanStep, text_option_eq, hit_count}

pub record BuildPlan : Type 0 where
  pub alias : String
  pub source : String
  pub pinned : PinnedSource
  pub inputs : BuildInputs
  pub steps : List PlanStep
  pub published_key : Option String
  pub manifest : Manifest
  pub no_cache : Bool
  pub now : ℕ
  pub max_age_days : ℕ
  pub dirty_manifest : Bool
  pub entries : Dict String CacheEntry

pub data Verdict : Type 0 where
  fresh warn stale : Verdict

-- `key_list[-1].key`, which a chain that is not empty has
unfoldable pub last_key : List StageKey → Option String
last_key [] = none
last_key (k ∷ []) = some k.key
last_key (k ∷ l ∷ ks) = last_key (l ∷ ks)

abbrev pub step_keys : List PlanStep → List StageKey
step_keys steps = map (λ (s : PlanStep). s.key) steps

unfoldable pub build_key : BuildPlan → Option String
build_key plan = last_key (step_keys plan.steps)

unfoldable pub is_noop : BuildPlan → Bool
is_noop plan = not plan.no_cache && text_option_eq plan.published_key (build_key plan)

unfoldable pub to_build : BuildPlan → List PlanStep
to_build plan = drop (hit_count plan.steps) plan.steps

unfoldable pub first_rebuild : BuildPlan → Option Stage
first_rebuild plan = elim (to_build plan) [ [] ↦ none | s ∷ ss ↦ some s.key.stage ]

-- The entry of the last of the first `n` steps.
unfoldable pub entry_at : ℕ → List PlanStep → Option CacheEntry
entry_at zero steps = none
entry_at (suc n) steps = elim (get_elem? steps n) [ some s ↦ s.entry | none ↦ none ]

unfoldable pub reused_entry : BuildPlan → Option CacheEntry
reused_entry plan = entry_at (hit_count plan.steps) plan.steps

abbrev day : ℕ
day = 86400 * 1000000

-- `timedelta(days=n)`
unfoldable pub days : ℕ → Result ℕ
days n = if ltb 999999999 n then err (crash overflow_error) else ok (n * day)

unfoldable pub age_verdict : BuildPlan → Result (Verdict × Option ℕ)
age_verdict plan = elim (reused_entry plan) [
  | none ↦ ok (fresh, none)
  | some entry ↦ do
    let age = age_of entry plan.now
    ceiling ← days (plan.max_age_days * 3)
    limit ← days plan.max_age_days
    ok (if ltb ceiling age then stale else if ltb limit age then warn else fresh, some age)
]
