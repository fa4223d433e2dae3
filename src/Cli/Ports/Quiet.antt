-- ===== src/Cli/Ports/Quiet.antt =====
-- What the commands share starts and deletes no VM.
use derico_sandbox.Cli.Ports.{
  approve, claim, on_handled, prime_sudo, publications, publish_and_report, publish_approved,
  publish_ports, publish_requested, published_line, release, verify_and_approve,
}
use derico_sandbox.Config.Ports.{PortMapping}
use derico_sandbox.Config.Project.{ProjectConfig}
use derico_sandbox.Errors.{Error, is_handled}
use derico_sandbox.Incus.Quiet.Existing.{guest_ip-Only, verify_host_access-Only}
use derico_sandbox.Prelude.{Bool, List, Option, String, [], none, some, ◌∷◌}
use derico_sandbox.Incus.Quiet.{is_quiet}
use derico_sandbox.Publish
use derico_sandbox.Publish.{Published}
use derico_sandbox.Cli.Ports.{password_for, demand_password, withdraw_all}
use derico_sandbox.System.{Action, attempt, System, return, throw, emit, warned, ◌>>◌, say, say_all}
use derico_sandbox.System.Effects.{Only, effects, >>=-Only, attempt-Only, if-Only, throw-Only}

pub say_all-Only {ℓ} :
    {A : Type ℓ} (line : A → String) (xs : List A) → Only is_quiet (say_all line xs)
unfolding say_all
say_all-Only line [] = search effects
say_all-Only line (x ∷ xs) =
    >>=-Only is_quiet (say (line x)) (λ _. say_all line xs) (search effects)
      (λ _. say_all-Only line xs)

on_handled-Only {ℓ} :
    {X : Type ℓ} (handler : Error → Action X)
    → ((e : Error) → Only is_quiet (handler e))
    → (raised : Error) → Only is_quiet (on_handled handler raised)
on_handled-Only {X} handler quiet raised =
    if-Only is_quiet (is_handled raised) (handler raised) (throw raised) (quiet raised)
      (throw-Only is_quiet X raised)

module _ (system : System) where
  approve-Only : (config : ProjectConfig) → Only is_quiet (approve system config)
  unfolding approve
  approve-Only config = record { keeps = λ I step s i. i }

  publications-Only :
      (config : ProjectConfig) (prompt : Bool) → Only is_quiet (publications system config prompt)
  unfolding publications
  publications-Only config prompt = record { keeps = λ I step s i. i }

  claim-Only :
      (config : ProjectConfig) (mappings : List PortMapping)
      → Only is_quiet (claim system config mappings)
  unfolding claim
  claim-Only config mappings = record { keeps = λ I step s i. i }

  release-Only : (config : ProjectConfig) → Only is_quiet (release system config)
  unfolding release
  release-Only config = record { keeps = λ I step s i. i }

  pub verify_and_approve-Only :
      (config : ProjectConfig) → Only is_quiet (verify_and_approve system config)
  unfolding verify_and_approve
  verify_and_approve-Only config = search (effects, verify_host_access-Only, approve-Only)

  pub prime_sudo-Only : (purpose : String) → Only is_quiet (prime_sudo system purpose)
  unfolding prime_sudo password_for demand_password
  prime_sudo-Only purpose = search effects depth 12

  clear-Only : (config : ProjectConfig) → Only is_quiet (Publish.clear system config)
  unfolding Publish.clear Publish.drop_listeners
  clear-Only config = search effects depth 12

  tailnet-Only : Only is_quiet (Publish.tailnet_address system)
  unfolding Publish.tailnet_address
  tailnet-Only = search effects depth 12

  fixed-Only : (o : Option String) → Only is_quiet (Publish.fixed_or_tailnet system o)
  unfolding Publish.fixed_or_tailnet
  fixed-Only none = tailnet-Only
  fixed-Only (some fixed) = search effects

  told_by-Only : (o : Option String) → Only is_quiet (Publish.told_by system o)
  unfolding Publish.told_by
  told_by-Only none = search effects
  told_by-Only (some binary) = search effects

  listen-Only :
      (config : ProjectConfig) (guest bound : String) (mappings : List PortMapping)
      → Only is_quiet (Publish.listen system config guest bound mappings)
  unfolding Publish.listen Publish.hostname Publish.drive_helper
  listen-Only config guest bound mappings = search (effects, told_by-Only) depth 16

  sync-Only :
      (config : ProjectConfig) (guest bound : String) (mappings : List PortMapping)
      → Only is_quiet (Publish.sync system config guest bound mappings)
  unfolding Publish.sync
  sync-Only config guest bound [] = search (effects, clear-Only) depth 12
  sync-Only config guest bound (m ∷ ms) = search (effects, listen-Only) depth 12

  withdraw_all-Only : (config : ProjectConfig) → Only is_quiet (withdraw_all system config)
  unfolding withdraw_all
  withdraw_all-Only config = search (effects, clear-Only, release-Only) depth 12

  publish_approved-Only :
      (config : ProjectConfig) (approved : List PortMapping)
      → Only is_quiet (publish_approved system config approved)
  unfolding publish_approved Publish.address
  publish_approved-Only config approved =
      search (effects, claim-Only, guest_ip-Only, fixed-Only, sync-Only) depth 16

  publish_requested-Only :
      (config : ProjectConfig) → Only is_quiet (publish_requested system config)
  unfolding publish_requested
  publish_requested-Only config =
      search (effects, publications-Only, say_all-Only, withdraw_all-Only, publish_approved-Only)
        depth 12

  publish_ports-Only : (config : ProjectConfig) → Only is_quiet (publish_ports system config)
  unfolding publish_ports
  publish_ports-Only config = search (effects, withdraw_all-Only, publish_requested-Only) depth 12

  pub publish_and_report-Only :
      (config : ProjectConfig) → Only is_quiet (publish_and_report system config)
  unfolding publish_and_report
  publish_and_report-Only config =
      >>=-Only is_quiet
        (attempt (publish_ports system config)
          (on_handled (λ raised. emit (warned "Ports were not published" raised) >> return [])))
        (λ endpoints. say_all published_line endpoints)
        (attempt-Only is_quiet (publish_ports system config) _ (publish_ports-Only config) (
          on_handled-Only (λ raised. emit (warned "Ports were not published" raised) >> return [])
            (λ e. search effects)))
        (λ endpoints. say_all-Only published_line endpoints)
