-- ===== src/Image/Plan.antt =====
-- imagebuild.py: `PlanStep`, `_plan_steps` and `_miss_reason`.
pub mod Reuse
use derico_sandbox.Image.Entries.{CacheEntry}
use derico_sandbox.Image.Keys.{StageKey}
use derico_sandbox.Prelude.{
  Bool, List, Option, String, [], false, filter, if◌then◌else◌, inl, inr, ltb, nat_Eq, nat_eq, none,
  not, some, string_Eq, true, ◌&&◌, ◌==◌, ◌||◌, ◌∷◌, ◌⊎◌, suc, zero, ℕ,
}
use derico_sandbox.Prelude.Dict.{Dict, get, keys, values}
use derico_sandbox.Prelude.Int.{negsuc, pos, ℤ}

pub data Reason : Type 0 where
  published no_cache parent_changed no_entry source_changed script_changed : Reason
  inputs_changed : String → Reason
  generation_bumped : Reason
  no_reason : Reason

pub record PlanStep : Type 0 where
  pub key : StageKey
  pub hit : Bool
  pub reason : Reason
  pub entry : Option CacheEntry

abbrev pub text_option_eq : Option String → Option String → Bool
text_option_eq none none = true
text_option_eq (some a) (some b) = a == b
text_option_eq none (some b) = false
text_option_eq (some a) none = false

abbrev texts_eq : List String → List String → Bool
texts_eq [] [] = true
texts_eq [] (b ∷ bs) = false
texts_eq (a ∷ as_) [] = false
texts_eq (a ∷ as_) (b ∷ bs) = a == b && texts_eq as_ bs

abbrev pub int_eq : ℤ → ℤ → Bool
int_eq (pos m) (pos n) = nat_eq m n
int_eq (negsuc m) (negsuc n) = nat_eq m n
int_eq (pos m) (negsuc n) = false
int_eq (negsuc m) (pos n) = false

-- `max(entries, key=lambda entry: entry.created)`: the first of the newest
abbrev newest : CacheEntry → List CacheEntry → CacheEntry
newest best [] = best
newest best (e ∷ es) = newest (if ltb best.created e.created then e else best) es

-- The entries that `_miss_reason` judges by, or the reason where there is none.
unfoldable pub siblings_of :
    StageKey → List CacheEntry → String → Reason ⊎ (CacheEntry × List CacheEntry)
siblings_of key es source =
    let same_stage = filter (λ (e : CacheEntry). e.stage == key.stage.name) es in
    let same_source = filter (λ (e : CacheEntry). e.source == source) same_stage in
    let same_parent = filter (λ (e : CacheEntry). text_option_eq e.parent key.parent) same_stage in
    elim same_stage [
      | [] ↦ inl no_entry
      | _ ∷ _ ↦ elim key.parent [
        | none ↦ elim same_source [ [] ↦ inl source_changed | e ∷ rest ↦ inr (e, rest) ]
        | some _ ↦ elim same_parent [ [] ↦ inl no_entry | e ∷ rest ↦ inr (e, rest) ]
      ]
    ]

-- What differs between the key and the newest of the entries it is judged by.
abbrev difference : StageKey → CacheEntry → List String → Reason
difference key sibling build_allow =
    let label = key.stage.inputs_label in
    if not (sibling.script == key.script)
    then script_changed
    else if not (sibling.inputs == key.inputs)
    then inputs_changed (if label == "" then "stage inputs" else label)
    else if not (int_eq sibling.generation key.generation)
        || not (int_eq sibling.stage_generation key.stage_generation)
    then generation_bumped
    else if not (texts_eq sibling.build_allow build_allow)
    then inputs_changed "build-allow"
    else no_entry

unfoldable pub miss_reason :
    StageKey → Dict String CacheEntry → String → List String → Bool → Reason
miss_reason key es source build_allow parent_missed =
    let judged : Reason = elim (siblings_of key (values es) source) [
      | inl reason ↦ reason
      | inr (e, rest) ↦ difference key (newest e rest) build_allow
    ] in
    if parent_missed then parent_changed else judged

module _ (es : Dict String CacheEntry) (source : String) (build_allow : List String)
    (skip : Bool) where
  -- The loop of `_plan_steps`; `skip` is its `no_cache`.
  unfoldable pub plan_from : Bool → List StageKey → List PlanStep
  plan_from parent_missed [] = []
  plan_from parent_missed (key ∷ keys) =
      let miss : PlanStep = record {
        key = key;
        hit = false;
        reason = if skip then no_cache else miss_reason key es source build_allow parent_missed;
        entry = none;
      } in
      let hits = plan_from false keys in
      let misses = plan_from true keys in
      let searched : List PlanStep = elim (get es key.key) [
        | some e ↦
            if parent_missed
            then miss ∷ misses
            else record { key = key; hit = true; reason = no_reason; entry = some e } ∷ hits
        | none ↦ miss ∷ misses
      ] in
      if skip then miss ∷ misses else searched

  unfoldable pub plan_steps : List StageKey → List PlanStep
  plan_steps keys = plan_from false keys

-- `deepest_hit + 1`: the number of steps before the first miss
unfoldable pub hit_count : List PlanStep → ℕ
hit_count [] = zero
hit_count (s ∷ ss) = let more = suc (hit_count ss) in if s.hit then more else zero
