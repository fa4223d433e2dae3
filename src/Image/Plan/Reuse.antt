-- ===== src/Image/Plan/Reuse.antt =====
-- Which steps of `_plan_steps` are cache hits.
use derico_sandbox.Image.Entries.{CacheEntry}
use derico_sandbox.Image.Keys.{StageKey}
use derico_sandbox.Image.Plan.{PlanStep, hit_count}
use derico_sandbox.Prelude.{
  Bool, List, String, [], any, arith, false, if◌then◌else◌, nat_Eq, none, refl, some, string_Eq,
  suc, ℕ, ◌∷◌, ◌≡◌,
}
use derico_sandbox.Prelude.Dict.{Dict, get}

-- The number of keys at the start of the chain that the cache has an entry for.
abbrev pub cached_prefix : Dict String CacheEntry → List StageKey → ℕ
cached_prefix es [] = 0
cached_prefix es (k ∷ ks) =
    let more = suc (cached_prefix es ks) in elim (get es k.key) [ some e ↦ more | none ↦ 0 ]

-- A step that is a hit reuses the entry of its own key; one that is a miss reuses none.
abbrev pub IsSound : Dict String CacheEntry → PlanStep → Type 0
IsSound es s = s.entry ≡ (if s.hit then get es s.key.key else none)

module _ (es : Dict String CacheEntry) (source : String) (build_allow : List String)
    (skip : Bool) where
  no_hit-hit_count :
      (steps : List PlanStep) → any (λ (s : PlanStep). s.hit) steps ≡ false → hit_count steps ≡ 0
  unfolding hit_count
  no_hit-hit_count [] h = refl
  no_hit-hit_count (s ∷ ss) h = ground arith
