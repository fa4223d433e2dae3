-- ===== src/Cli/Doctor.antt =====
-- cli.py: `doctor`. A check says a line, and tells whether it has failed.
use derico_sandbox.Errors.{Error, cli_error, is_handled, problems_found}
use derico_sandbox.FilePath.{FilePath}
use derico_sandbox.Image.Cache.{legacy_builders}
use derico_sandbox.Incus.Client.{verify_host_access}
use derico_sandbox.Incus.Network.{default_network, blocked_forwarding_remedy}
use derico_sandbox.Prelude.{
  Bool, Option, String, [], false, if◌then◌else◌, nat_eq, none, not, some, true, ℕ, ◌+◌, ◌<>◌, ◌∷◌,
}
use derico_sandbox.Publish
use derico_sandbox.Incus.Client.{is_some}
use derico_sandbox.System.{
  return, say, ◌>>=◌, ◌>>◌, Action, Output, System, attempt, emit, failed, run, say_all, throw,
  throw_if, warned,
}

abbrev passed : String → Action Bool
passed line = say ("PASS " <> line) >> return false

-- A `FAIL` line, and the name that is added to `failures`.
abbrev fault : String → Action Bool
fault line = say ("FAIL " <> line) >> return true

abbrev pub count : Bool → ℕ
count true = 1
count false = 0

unfoldable pub legacy_warning : String → String → String
legacy_warning project legacy =
    "WARN legacy image builder " <> legacy
    <> " is left over from a build before stage caching; remove it with `incus --project "
    <> project <> " delete " <> legacy <> " --force`"

module _ (system : System) where
  unfoldable pub check_command : String → Action Bool
  check_command program =
      if is_some (system.which program)
      then passed (program <> " is installed")
      else fault (program <> " is missing")

  -- A device or a kernel module, by its path.
  unfoldable pub check_path : FilePath → String → String → Action Bool
  check_path path good bad = if system.platform.exists path then passed good else fault bad

  -- The line of a `SandboxshError`; a crash passes through.
  abbrev report_failure {ℓ} : {A : Type ℓ} → Error → Action (Option A)
  report_failure raised =
      if is_handled raised then emit (warned "FAIL" raised) >> return none else throw raised

  unfoldable pub judge_forwarding : String → Option String → Action Bool
  judge_forwarding network none = passed ("host forwards traffic from bridge " <> network)
  judge_forwarding network (some remedy) = fault remedy

  unfoldable pub ask_forwarding : Action (Option (String × Option String))
  ask_forwarding = do
    network ← default_network system
    remedy ← blocked_forwarding_remedy system network
    return (some (network, remedy))

  -- Whether the check of the bridge fails.
  unfoldable pub check_forwarding : Action Bool
  check_forwarding = attempt ask_forwarding report_failure >>= λ told. elim told [
    | some (network, remedy) ↦ judge_forwarding network remedy
    | none ↦ return true
  ]

  unfoldable pub check_bridge : String → Action ℕ
  check_bridge project = do
    forwarding ← check_forwarding
    left ← legacy_builders system
    say_all (legacy_warning project) left
    return (count forwarding)

  -- The project of `verify_host_access`, if it returns.
  unfoldable pub access_project : Action (Option String)
  access_project =
      attempt
        (verify_host_access system >>= λ project.
          say ("PASS restricted Incus user project: " <> project) >> return (some project))
        report_failure

  -- The failures of the Incus checks.
  unfoldable pub check_access : Action ℕ
  check_access =
      access_project >>= λ project. elim project [ some name ↦ check_bridge name | none ↦ return 1 ]

  abbrev tailscale_line : Output → String
  tailscale_line r =
      if failed r
      then "WARN tailscale is installed but not connected; run `tailscale up`"
      else "PASS tailnet publishing is available"

  abbrev ask_tailscale : Action (Unit {0})
  ask_tailscale =
      run system ("tailscale" ∷ "status" ∷ "--json" ∷ []) false none >>= λ r. say (tailscale_line r)

  -- The publication of ports, which is never a failure.
  unfoldable pub check_publishing : Action (Unit {0})
  check_publishing =
      let missing =
        say
          "WARN the publishing helper is installed but tailscale is not; publish only with an explicit \"tailscale\": {\"address\": \"...\"}" in
      if not (Publish.helper_available system)
      then say "WARN the publishing helper is not installed"
      else if is_some (system.which "tailscale")
      then ask_tailscale
      else missing

  -- `doctor_command`
  unfoldable pub doctor_command : Action (Unit {0})
  doctor_command = do
    no_incus ← check_command "incus"
    no_git ← check_command "git"
    no_sudo ← check_command "sudo"
    no_kvm ← check_path ("dev" ∷ "kvm" ∷ []) "/dev/kvm is available" "/dev/kvm is unavailable"
    no_filter ←
        check_path ("sys" ∷ "module" ∷ "br_netfilter" ∷ []) "br_netfilter kernel module is loaded"
          "br_netfilter kernel module is not loaded"
    access ← check_access
    check_publishing
    let failures =
        count no_incus + count no_git + count no_sudo + count no_kvm + count no_filter + access
    throw_if (not (nat_eq failures 0)) (cli_error (problems_found failures))
    say "Host is ready for sandboxsh."
