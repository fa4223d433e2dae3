-- ===== src/Cli/Images.antt =====
-- cli.py: the commands on the image and its cache.
pub mod Guarded
use mathlib.Core.Option
use Prim.Native.Nat.{max}
use derico_sandbox.Errors.{absent_image, cli_error}
use derico_sandbox.Image.Build.{BuildReport, build}
use derico_sandbox.Image.BuildPlan.{is_noop}
use derico_sandbox.Image.Builder.{Request, prune_chains}
use derico_sandbox.Image.Cache.{Workshop, legacy_builders}
use derico_sandbox.Image.Entries.{format_age}
use derico_sandbox.Image.Report.{Chain, Row, cache_rows, orphan, outdated}
use derico_sandbox.Incus.Client.{image_exists, verify_host_access}
use derico_sandbox.Prelude.{
  Bool, List, Option, String, [], if◌then◌else◌, is_empty, length, map, nat_Eq, nat_eq, none, not,
  some, string_Eq, ℕ, ◌<>◌, ◌==◌, ◌||◌, ◌∷◌,
}
use derico_sandbox.Prelude.Decimal.{show}
use derico_sandbox.Prelude.Text.{is_space, join, or_none, pad, rstrip_by}
use derico_sandbox.Security.Acl.{AclPolicy}
use derico_sandbox.Cli.Ports.{prime_sudo, report_unresolved_defaults}
use derico_sandbox.Image.Names.{text_length}
use derico_sandbox.Image.Report
use derico_sandbox.Image.Report.{current, previous}
use derico_sandbox.Incus.Client
use derico_sandbox.System.{return, say, ◌>>=◌, ◌>>◌, Action, System, say_all, throw_if, when}

-- The options of `image build`.
pub record BuildOptions : Type 0 where
  pub request : Request
  pub no_publish : Bool
  pub allow_stale : Bool
  pub dry_run : Bool
  pub no_wait : Bool

unfoldable pub report_policy : Option AclPolicy → Action (Unit {0})
report_policy none = return tt
report_policy (some policy) = report_unresolved_defaults policy

-- What the command says of its report.
unfoldable pub report_build : String → BuildReport → Action (Unit {0})
report_build image report =
    let done =
      if report.published
      then "Published " <> image <> "."
      else "Built " <> image <> " without publishing; rerun without --no-publish to publish." in
    report_policy report.policy >> when (not (report.dry_run || is_noop report.plan)) (say done)

unfoldable pub chain_text : Chain → String
chain_text outdated = "stale"
chain_text current = "current"
chain_text previous = "previous"
chain_text orphan = "orphan"

-- The texts of a row, in the order of the columns.
unfoldable pub row_cells : Row → List String
row_cells r =
    let hosts = join "," r.entry.build_allow in
    r.key
    ∷ r.entry.stage
    ∷ Option.get_or (or_none r.entry.parent) "-"
    ∷ format_age r.age
    ∷ chain_text r.chain
    ∷ (if hosts == "" then "-" else hosts)
    ∷ r.entry.instance_name
    ∷ []

abbrev titles : List String
titles = "KEY" ∷ "STAGE" ∷ "PARENT" ∷ "AGE" ∷ "CHAIN" ∷ "BUILD-ALLOW" ∷ "INSTANCE" ∷ []

-- The widths of the columns that hold these cells too.
unfoldable pub widen : List ℕ → List String → List ℕ
widen (w ∷ ws) (c ∷ cs) = max w (text_length c) ∷ widen ws cs
widen ws cs = ws

unfoldable pub widths : List (List String) → List ℕ
widths [] = map text_length titles
widths (row ∷ rows) = widen (widths rows) row

unfoldable pub padded_cells : List ℕ → List String → List String
padded_cells (w ∷ ws) (c ∷ cs) = pad w c ∷ padded_cells ws cs
padded_cells ws cs = []

-- A line of the table: `str.rstrip` takes what `str.isspace` holds of.
unfoldable pub table_line : List ℕ → List String → String
table_line ws cells = rstrip_by is_space (join "  " (padded_cells ws cells))

unfoldable pub legacy_line : String → String → String
legacy_line project legacy =
    "legacy builder " <> legacy
    <> " is left over from a build before stage caching; remove it with `incus --project "
    <> project <> " delete " <> legacy <> " --force`"

unfoldable pub pruned_line : List String → String
pruned_line removed =
    "Pruned "
    <> show (length removed)
    <> " cache entr"
    <> (if nat_eq (length removed) 1 then "y" else "ies")
    <> "."

module _ (system : System) (workshop : Workshop) where
  -- `image_build_command`
  unfoldable pub image_build_command : BuildOptions → Action (Unit {0})
  image_build_command options = do
    project_name ← verify_host_access system
    report ←
        build system workshop options.request options.allow_stale (not options.no_publish)
          options.dry_run (not options.no_wait)
          (prime_sudo system "apply the image build's host-enforced firewall")
    report_build options.request.alias report

  -- `image_status_command`
  unfoldable pub image_status_command : String → String → Action (Unit {0})
  image_status_command image source = do
    project_name ← verify_host_access system
    there ← image_exists system image
    throw_if (not there) (cli_error (absent_image image))
    shown ← Report.status system workshop image source
    say_all (λ line. line) shown

  -- `image_cache_list_command`
  unfoldable pub image_cache_list_command : String → Action (Unit {0})
  image_cache_list_command source = do
    project_name ← verify_host_access system
    rows ← cache_rows system workshop source 1
    let cells = map row_cells rows
    say_all (table_line (widths cells)) (titles ∷ cells)
    when (is_empty rows) (say "(no cache entries)")
    left ← legacy_builders system
    say_all (legacy_line (Client.project system)) left

  -- `image_cache_prune_command`
  unfoldable pub image_cache_prune_command : String → ℕ → Bool → Bool → Action (Unit {0})
  image_cache_prune_command source keep_generations all_ no_wait = do
    project_name ← verify_host_access system
    removed ← prune_chains system workshop source keep_generations all_ (not no_wait)
    say_all (λ key. "removed  " <> key) removed
    say (pruned_line removed)
