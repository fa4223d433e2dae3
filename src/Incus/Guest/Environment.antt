-- ===== src/Incus/Guest/Environment.antt =====
-- The environment of a command in the guest: the hint for Herdr, and nothing else, is the command's.
use derico_sandbox.FilePath.{FilePath}
use derico_sandbox.Incus.Guest.{exec_environment, herdr_agent_commands}
use derico_sandbox.Prelude.{
  Bool-cases, List, String, contains, if◌then◌else◌, inl, inr, nat_Eq, none, some, string_Eq, ◌==◌,
  ◌∷◌, ◌≡◌, arith,
}
use derico_sandbox.Prelude.Dict.{Dict, get, get-put, get-remove}
use derico_sandbox.FilePath

-- Whatever `HERDR_AGENT` was exported, the wrapper of a guest command carries it exactly for `claude` and
-- `pi`, with that name, and every other variable as it was.
pub exec_environment-get :
    (environment : Dict String String) (program : String) (args : List String) (variable : String)
    → get (exec_environment environment (program ∷ args)) variable ≡ (
        if variable == "HERDR_AGENT"
        then if contains herdr_agent_commands (FilePath.name (FilePath.parts program))
          then some (FilePath.name (FilePath.parts program))
          else none
        else get environment variable)
unfolding exec_environment
exec_environment-get environment program args variable =
    elim (Bool-cases (contains herdr_agent_commands (FilePath.name (FilePath.parts program)))) [
      | inl agent ↦ rw (agent, get-put, get-remove) (ground arith)
      | inr other ↦ rw (other, get-remove) (ground arith)
    ]
