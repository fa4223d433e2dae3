-- ===== src/Image/Report.antt =====
-- imagebuild.py: what is shown of a build: `BuildPlan.lines`, `_format_elapsed`, and `cache_rows` and `status` of
-- `ImageBuilder`.
use mathlib.Core.Option
use derico_sandbox.Errors.{Result, ok}
use derico_sandbox.Image.BuildPlan.{
  BuildPlan, Verdict, age_verdict, build_key, first_rebuild, is_noop, to_build,
}
use derico_sandbox.Image.Cache.{Workshop, cache_entries, wall_time}
use derico_sandbox.Image.Entries.{CacheEntry, age_of, format_age}
use derico_sandbox.Image.Manifest.{PinnedSource}
use derico_sandbox.Image.Plan.{
  PlanStep, Reason, generation_bumped, inputs_changed, no_cache, no_entry, no_reason,
  parent_changed, published, script_changed, source_changed,
}
use derico_sandbox.Incus.Client.{image_property}
use derico_sandbox.Incus.Images.{partition}
use derico_sandbox.Prelude.{
  List, Option, String, [], contains, false, if◌then◌else◌, length, ltb, map, nat_Eq, nat_eq, none,
  some, string_Eq, ℕ, ◌%◌, ◌*◌, ◌++◌, ◌/◌, ◌<>◌, ◌==◌, ◌∷◌,
}
use derico_sandbox.Prelude.Decimal.{show}
use derico_sandbox.Prelude.Sort.{sorted}
use derico_sandbox.Prelude.Text.{or_none, pad, str_le, take_chars}
use derico_sandbox.Errors
use derico_sandbox.Image.BuildPlan.{fresh, warn, stale, days}
use derico_sandbox.Image.Builder.{plan, chains}
use derico_sandbox.Image.Plan.{published}
use derico_sandbox.System.{◌>>=◌, Action, System, lift, return}

-- `source.split(":", 1)[-1]`
abbrev short_source : String → String
short_source source = elim (partition source) [ some p ↦ p.1 | none ↦ source ]

-- `pinned or 'now'`
abbrev pin_date : PinnedSource → String
pin_date pinned = Option.get_or (or_none (some pinned.pinned)) "now"

unfoldable pub key_text : BuildPlan → String
key_text p = Option.get_or (build_key p) ""

abbrev reason_text : Reason → String
reason_text published = "published"
reason_text no_cache = "--no-cache"
reason_text parent_changed = "parent changed"
reason_text no_entry = "no entry"
reason_text source_changed = "source changed"
reason_text script_changed = "script changed"
reason_text (inputs_changed label) = "inputs changed (" <> label <> ")"
reason_text generation_bumped = "generation bumped"
reason_text no_reason = ""

abbrev source_line : BuildPlan → String
source_line p =
    "source   "
    <> pad 16 (short_source p.source)
    <> " "
    <> take_chars 8 p.pinned.fingerprint
    <> " (pinned "
    <> pin_date p.pinned
    <> ")"

-- A line for a step, of a plan that was made at this time.
unfoldable pub step_line : ℕ → PlanStep → String
step_line now step =
    let name = pad 16 step.key.stage.name in
    let missed = "miss     " <> name <> " " <> step.key.key <> "  " <> reason_text step.reason in
    let reused : String = elim step.entry [
      | some e ↦ "hit      " <> name <> " " <> step.key.key <> "  age " <> format_age (age_of e now)
      | none ↦ missed
    ] in
    if step.hit then reused else missed

abbrev verdict_text : Verdict → String
verdict_text fresh = "ok"
verdict_text warn = "warn"
verdict_text stale = "stale"

unfoldable pub verdict_lines : ℕ → Verdict × Option ℕ → List String
verdict_lines limit (fresh, age) = []
verdict_lines limit (v, none) = []
verdict_lines limit (v, some age) =
    (pad 8 (verdict_text v)
      <> " reused entry is "
      <> format_age age
      <> " old (warn after "
      <> show limit
      <> "d, refuse after "
      <> show (limit * 3)
      <> "d)")
    ∷ []

-- `BuildPlan.lines`
unfoldable pub plan_lines : BuildPlan → Result (List String)
plan_lines p =
    let current = "up to date: " <> p.alias <> " carries build_key " <> key_text p in
    let judged : Result (List String) = Errors.◌>>=◌ (age_verdict p) λ verdict.
      ok
        (source_line p ∷ (map (step_line p.now) p.steps ++ verdict_lines p.max_age_days verdict)) in
    if is_noop p then ok (source_line p ∷ current ∷ []) else judged

-- `_format_elapsed`, of milliseconds
unfoldable pub format_elapsed : ℕ → String
format_elapsed elapsed =
    let seconds = elapsed / 1000 in
    let minutes = seconds / 60 in
    let rest = seconds % 60 in
    let two = if ltb rest 10 then "0" <> show rest else show rest in
    if nat_eq minutes 0 then show rest <> "s" else show minutes <> "m" <> two <> "s"

pub data Chain : Type 0 where
  outdated current previous orphan : Chain

-- A row of `cache_rows`: the entry, its age, and the chain that it is on.
pub record Row : Type 0 where
  pub key : String
  pub entry : CacheEntry
  pub age : ℕ
  pub chain : Chain

unfoldable pub row_of : List String → List String → ℕ → ℕ → String × CacheEntry → Row
row_of now_on before now ceiling (key, entry) =
    let age = age_of entry now in
    record {
      key = key;
      entry = entry;
      age = age;
      chain =
          if ltb ceiling age
          then outdated
          else if contains now_on key
          then current
          else if contains before key
          then previous
          else orphan;
    }

-- The lines of `status` behind a plan.
abbrev chain_line : BuildPlan → String
chain_line p =
    let first : String = elim (first_rebuild p) [ some stage ↦ stage.name | none ↦ "?" ] in
    if is_noop p
    then "chain    up to date"
    else "chain    would rebuild from "
      <> first
      <> " ("
      <> show (length (to_build p))
      <> " of "
      <> show (length p.steps)
      <> " stages)"

abbrev status_source_line : BuildPlan → String
status_source_line p =
    "source   "
    <> pad 16 (short_source p.source)
    <> " "
    <> take_chars 8 p.pinned.fingerprint
    <> (if p.pinned.serial == "" then "" else "  serial " <> p.pinned.serial)
    <> "  (pinned "
    <> pin_date p.pinned
    <> ")"

abbrev image_line : String → Option String → String → String
image_line alias none source =
    "image    " <> pad 16 alias <> " published without a build key (built before caching)"
image_line alias (some key) source =
    "image    "
    <> pad 16 alias
    <> " build_key "
    <> key
    <> (if source == "" then "" else "  source " <> take_chars 8 source)

module _ (system : System) (workshop : Workshop) where
  -- `ImageBuilder.cache_rows`
  unfoldable pub cache_rows : String → ℕ → Action (List Row)
  cache_rows source back = do
    (now_on, before) ← chains system workshop source back
    now ← wall_time system workshop
    ceiling ← lift (days (workshop.settings.max_age_days * 3))
    es ← cache_entries system workshop
    return (
        map (row_of now_on before now ceiling)
          (sorted (λ (a b : String × CacheEntry). str_le a.1.stage b.1.stage) es))

  -- `ImageBuilder.status`
  unfoldable pub status : String → String → Action (List String)
  status alias source = do
    published_key ← image_property system alias "user.sandboxsh.build_key"
    published_source ← image_property system alias "user.sandboxsh.source"
    p ← plan system workshop (record {
      alias = alias;
      source = source;
      refresh = false;
      refresh_from = none;
      no_cache = false;
      generation = none;
    })
    return (
        image_line alias published_key (Option.get_or published_source "")
        ∷ status_source_line p
        ∷ chain_line p
        ∷ [])
