-- ===== src/Incus/Guest.antt =====
-- incus.py: commands in the guest: the wait loop, the pinned names, and what is run for the user.
pub mod Waiting
pub mod Environment
use derico_sandbox.Config.Project.{ProjectConfig, instance_name}
use derico_sandbox.Errors.{
  Error, Result, command_timeout, crash, err, incus_error, no_command, no_compose, ok, out_of_fuel,
  socket_visible, wait_timed_out,
}
use derico_sandbox.FilePath.{FilePath}
use derico_sandbox.Incus.Client.{call, command, control_timeout, incus_argv}
use derico_sandbox.Prelude.{
  Bool, List, Option, String, [], contains, false, filter, if◌then◌else◌, is_empty, leb, map,
  nat_Eq, none, not, some, string_Eq, suc, true, zero, ℕ, ◌&&◌, ◌++◌, ◌+◌, ◌-◌, ◌<>◌, ◌==◌, ◌∷◌,
}
use derico_sandbox.Prelude.Dict.{Dict, put, remove}
use derico_sandbox.Prelude.Sort.{sorted}
use derico_sandbox.Prelude.Text.{has_text, join, str_le, strip}
use derico_sandbox.Security.Acl.{AclPolicy}
use derico_sandbox.Errors
use mathlib.Core.Option
use derico_sandbox.FilePath
use Prim.Native.Nat.{min}
use derico_sandbox.System.{
  Action, Event, Output, State, System, echoed, emit, failed, lift, now, recover, return, run,
  slept, throw, throw_if, when, ◌>>=◌, ◌>>◌, attempt,
}

-- `PIN_BEGIN` and `PIN_END`
abbrev pin_begin : String
pin_begin = "# BEGIN sandboxsh allowlist"

abbrev pin_end : String
pin_end = "# END sandboxsh allowlist"

abbrev pnpm_store_env : String
pnpm_store_env = "PNPM_CONFIG_STORE_DIR=/home/dev/.local/share/pnpm/store"

-- `HERDR_AGENT_COMMANDS`
abbrev pub herdr_agent_commands : List String
herdr_agent_commands = "claude" ∷ "pi" ∷ []

abbrev pub in_guest : String → List String → List String
in_guest instance_ args = "exec" ∷ instance_ ∷ "--" ∷ args

abbrev as_dev : String → List String → List String
as_dev instance_ args = in_guest instance_ ("runuser" ∷ "-u" ∷ "dev" ∷ "--" ∷ args)

-- `preferred`: the addresses that are pinned for a host
unfoldable pub preferred : String → List String → List String
preferred host addresses =
    let usable = filter (λ a. not (has_text a "/") && not (a == host)) addresses in
    let ipv4 = filter (λ a. not (has_text a ":")) usable in if is_empty ipv4 then usable else ipv4

unfoldable pub pin_entries : List (String × List String) → List String
pin_entries [] = []
pin_entries ((host, addresses) ∷ rest) =
    map (λ a. a <> " " <> host) (preferred host addresses) ++ pin_entries rest

-- The text that `pin_allowlist` appends to /etc/hosts.
unfoldable pub pin_document : AclPolicy → String
pin_document policy =
    join "\n" (
      pin_begin
      ∷ (pin_entries (sorted (λ (a b : String × List String). str_le a.0 b.0) policy.resolutions)
          ++ pin_end ∷ []))
    <> "\n"

abbrev pin_script : String
pin_script =
    "set -e; sed -i '/" <> pin_begin <> "/,/" <> pin_end
    <> "/d' /etc/hosts; printf '%s' \"$1\" >> /etc/hosts"

module _ (system : System) where
  abbrev guest_command : String → List String → Bool → Option ℕ → Action Output
  guest_command instance_ args check timeout =
      command system (in_guest instance_ args) check timeout

  -- `except CommandTimeoutError: pass`
  abbrev pub not_yet : Error → Action Bool
  not_yet (command_timeout args) = return false
  not_yet raised = throw raised

  -- The body of the `try` of `_wait_for_guest_command`: whether the command has succeeded.
  unfoldable pub guest_probe : String → List String → ℕ → Action Bool
  guest_probe instance_ args remaining =
      attempt
        (guest_command instance_ args false (some (min 10000 remaining)) >>= λ r.
          return (not (failed r)))
        not_yet

  -- What the loop does behind a probe that has failed.
  unfoldable pub pause : ℕ → String → Bool → Action (Unit {0})
  pause deadline description waiting = do
    when (not waiting) (emit (echoed ("Waiting for " <> description <> "...")))
    t ← now system
    emit (slept (min 2000 (deadline - t)))

  -- The loop of `_wait_for_guest_command`, on fuel.
  unfoldable pub wait_loop : ℕ → String → List String → ℕ → String → Bool → Action (Unit {0})
  wait_loop zero instance_ args deadline description waiting = throw (crash out_of_fuel)
  wait_loop (suc fuel) instance_ args deadline description waiting =
      let again =
        pause deadline description waiting
        >> wait_loop fuel instance_ args deadline description true in
      let round = λ (t : ℕ). guest_probe instance_ args (deadline - t) >>= λ answered.
      if answered then return tt else again in
      now system >>= λ t.
      if leb deadline t then throw (incus_error (wait_timed_out description)) else round t

  -- `Incus._wait_for_guest_command`, of a timeout in milliseconds
  unfoldable pub wait_for_guest_command : ℕ → String → List String → ℕ → String → Action (Unit {0})
  wait_for_guest_command fuel instance_ args timeout description = do
    start ← now system
    wait_loop fuel instance_ args (start + timeout) description false

  -- A round lasts a millisecond at least.
  unfoldable pub wait_for_agent : String → Action (Unit {0})
  wait_for_agent instance_ =
      wait_for_guest_command 300001 instance_ ("true" ∷ []) 300000
        ("the Incus agent in " <> instance_)

  -- `wait_for_agent` with a timeout
  unfoldable pub wait_for_agent_within : ℕ → String → Action (Unit {0})
  wait_for_agent_within timeout instance_ =
      wait_for_guest_command (suc timeout) instance_ ("true" ∷ []) timeout
        ("the Incus agent in " <> instance_)

  unfoldable pub wait_for_mount : String → String → Action (Unit {0})
  wait_for_mount instance_ path =
      wait_for_guest_command 120001 instance_ ("mountpoint" ∷ "-q" ∷ path ∷ []) 120000
        (path <> " to mount in " <> instance_)

  -- `Incus.pin_allowlist`
  unfoldable pub pin_allowlist : AclPolicy → String → Action (Unit {0})
  pin_allowlist policy instance_ = do
    r ←
        guest_command instance_
          ("bash" ∷ "-c" ∷ pin_script ∷ "sandboxsh" ∷ pin_document policy ∷ []) true control_timeout
    return tt

  -- `Incus.unpin_allowlist`
  unfoldable pub unpin_allowlist : String → Action (Unit {0})
  unpin_allowlist instance_ = call system (
      in_guest instance_
        ("sed" ∷ "-i" ∷ ("/" <> pin_begin <> "/,/" <> pin_end <> "/d") ∷ "/etc/hosts" ∷ []))

  unfoldable pub copy_git_setting : String → String → Action (Unit {0})
  copy_git_setting instance_ key = do
    r ← run system ("git" ∷ "config" ∷ "--global" ∷ "--get" ∷ key ∷ []) false none
    let value = strip r.stdout
    when (not (value == ""))
        (call system (as_dev instance_ ("git" ∷ "config" ∷ "--global" ∷ key ∷ value ∷ [])))

  -- The loop of `_configure_git`.
  unfoldable pub copy_git_settings : String → List String → Action (Unit {0})
  copy_git_settings instance_ [] = return tt
  copy_git_settings instance_ (key ∷ rest) =
      copy_git_setting instance_ key >> copy_git_settings instance_ rest

  -- `Incus._configure_git`
  unfoldable pub configure_git : String → Action (Unit {0})
  configure_git instance_ =
      copy_git_settings instance_
        ("user.name" ∷ "user.email" ∷ "init.defaultBranch" ∷ "pull.rebase" ∷ [])

  -- `Incus._verify_guest`
  unfoldable pub verify_guest : String → Action (Unit {0})
  verify_guest instance_ = do
    r ← command system (as_dev instance_ ("docker" ∷ "compose" ∷ "version" ∷ [])) false none
    throw_if (failed r) (incus_error no_compose)
    socket ←
        guest_command instance_ ("test" ∷ "!" ∷ "-S" ∷ "/var/run/incus/unix.socket" ∷ []) false none
    throw_if (failed socket) (incus_error socket_visible)

  abbrev dev_shell : ProjectConfig → List String → Result (List String)
  dev_shell config args = Errors.◌>>=◌ (instance_name system.platform config) λ instance_.
      ok (incus_argv system (as_dev instance_ ("env" ∷ pnpm_store_env ∷ "bash" ∷ "-lc" ∷ args)))

  -- `Incus.shell_argv`
  unfoldable pub shell_argv : ProjectConfig → Result (List String)
  shell_argv config =
      dev_shell config (("cd " <> system.shell_quote config.workdir <> " && exec bash -l") ∷ [])

  -- `Incus.exec_argv`
  unfoldable pub exec_argv : ProjectConfig → List String → Result (List String)
  exec_argv config [] = err (incus_error no_command)
  exec_argv config (program ∷ args) =
      dev_shell config
        ("cd \"$1\"; shift; exec \"$@\"" ∷ "sandboxsh" ∷ config.workdir ∷ program ∷ args)

-- `Incus.exec_environment`, of `self.environment`
unfoldable pub exec_environment : Dict String String → List String → Dict String String
exec_environment environment [] = remove environment "HERDR_AGENT"
exec_environment environment (program ∷ args) =
    let agent = FilePath.name (FilePath.parts program) in
    let plain = remove environment "HERDR_AGENT" in
    if contains herdr_agent_commands agent then put plain "HERDR_AGENT" agent else plain
