-- ===== src/Incus/Devices.antt =====
-- incus.py: the devices of a new instance: the mounts, the host's skills and instructions, and the
-- volume of credentials.
use derico_sandbox.Config.Mounts.{Mount}
use derico_sandbox.Config.Project.{ProjectConfig}
use derico_sandbox.FilePath.{FilePath}
use derico_sandbox.Incus.Mounts.{device_args, mount_device, workspace_prefix}
use derico_sandbox.Prelude.{
  List, Option, String, [], if◌then◌else◌, nat_Eq, none, select, some, string_Eq, suc, ℕ, ◌++◌,
  ◌<>◌, ◌∷◌,
}
use derico_sandbox.Prelude.Decimal.{show}
use derico_sandbox.FilePath
use derico_sandbox.Incus.Client.{call, creds_volume, ensure_credentials_volume}
use derico_sandbox.System.{Action, System, return, when, ◌>>◌}

abbrev device_add : String → String → List String → List String
device_add instance_ device args = "config" ∷ "device" ∷ "add" ∷ instance_ ∷ device ∷ "disk" ∷ args

module _ (system : System) where
  abbrev home_dir : List String → FilePath
  home_dir below = system.host.home ++ below

  abbrev resolved : FilePath → FilePath
  resolved path = system.platform.resolve (FilePath.render path)

  -- `host_skill_sources`
  unfoldable pub host_skill_sources : List (String × FilePath)
  host_skill_sources =
      select (λ (c : String × FilePath). system.is_dir c.1)
        (λ (c : String × FilePath). (c.0, resolved c.1))
        (("agents", home_dir (".agents" ∷ "skills" ∷ []))
          ∷ ("claude", system.claude_config ++ "skills" ∷ [])
          ∷ ("vibe", home_dir (".vibe" ∷ "skills" ∷ []))
          ∷ [])

  -- `host_instruction_source`
  unfoldable pub host_instruction_source : Option FilePath
  host_instruction_source =
      if system.is_file (home_dir (".agents" ∷ "AGENTS.md" ∷ []))
      then some (resolved (home_dir (".agents" ∷ [])))
      else none

  unfoldable pub add_mount : String → ℕ → Mount → Action (Unit {0})
  add_mount instance_ index m =
      call system
        (device_add instance_ (workspace_prefix <> show index) (device_args (mount_device m)))

  -- The loop over the mounts in `create_instance`.
  unfoldable pub add_mounts : String → ℕ → List Mount → Action (Unit {0})
  add_mounts instance_ index [] = return tt
  add_mounts instance_ index (m ∷ ms) =
      add_mount instance_ index m >> add_mounts instance_ (suc index) ms

  unfoldable pub add_skill : String → String → FilePath → Action (Unit {0})
  add_skill instance_ source skills = call system (
      device_add instance_ ("host-skills-" <> source) (
        ("source=" <> FilePath.render skills)
        ∷ ("path=/opt/sandboxsh/host-skills/" <> source)
        ∷ "readonly=true"
        ∷ []))

  unfoldable pub add_skills : String → List (String × FilePath) → Action (Unit {0})
  add_skills instance_ [] = return tt
  add_skills instance_ ((source, skills) ∷ rest) =
      add_skill instance_ source skills >> add_skills instance_ rest

  unfoldable pub add_instructions : String → Option FilePath → Action (Unit {0})
  add_instructions instance_ none = return tt
  add_instructions instance_ (some directory) = call system (
      device_add instance_ "host-instructions" (
        ("source=" <> FilePath.render directory)
        ∷ "path=/opt/sandboxsh/host-instructions"
        ∷ "readonly=true"
        ∷ []))

  unfoldable pub add_credentials : String → Action (Unit {0})
  add_credentials instance_ = do
    ensure_credentials_volume system
    call system (
        device_add instance_ "agent-creds"
          (("pool=" <> system.pool) ∷ ("source=" <> creds_volume) ∷ "path=/agent-creds" ∷ []))

  -- The devices of `create_instance`.
  unfoldable pub add_devices : ProjectConfig → String → Action (Unit {0})
  add_devices config instance_ = do
    add_mounts instance_ 0 config.mounts
    add_skills instance_ host_skill_sources
    add_instructions instance_ host_instruction_source
    when config.agent_credentials (add_credentials instance_)
