-- ===== src/Lib.antt =====
-- sandboxsh runs a project in a virtual machine of its own. This library models the Python sources,
-- src/sandboxsh/, that decide what the machine may do, and the commands that bring it about: which
-- directories are mounted, which host ports are claimed, what the network lets out, which image it
-- starts from, and in which order Incus is told so.
--
-- The parts, and the files that model them:
--   Config    src/sandboxsh/config.py: the reader of .sandboxsh.json. Names (texts and names), Size, Ports,
--             Firewall, Tailscale, Mounts, Load (`load_config`), Project (`ProjectConfig` and the names and
--             fingerprints derived from it).
--   Security  src/sandboxsh/security.py. Ledger and Approvals (`ensure_project_approvals`, its review of
--             mounts and endpoints, and the revocation), Mounts (`assert_mount_safe`), Publications
--             (`approved_publications`), Registry (the host ports), Endpoints (`DEFAULT_ENDPOINTS`,
--             `host_endpoints`), Hosts (`resolve_host`, `_validate_destination`), Acl (`build_acl_policy`).
--   Image     src/sandboxsh/imagebuild.py. Stages (`load_stages`), Keys (`stage_keys`), Entries
--             and Cache (`ImageCache`: what it decides, and its calls of Incus), Manifest, Plan (`_plan_steps`,
--             `_miss_reason`), BuildPlan, Settings, Builder (the lock, and `plan`, `chains` and `prune` of
--             `ImageBuilder`), Report (the lines of a plan, `cache_rows`, `status`), Workers
--             (`_build_stage`), Build (`build` and `run` with their cleanup, and `Incus.build_image`).
--   System    src/sandboxsh/process.py: `Runner.run`, and the monad of the operations below. Effects, Outcomes
--             and Leaves hold the predicates that their theorems share.
--   Incus     src/sandboxsh/incus.py, the class `Incus`. Values (the JSON that Incus answers), Version, Client
--             (one command, and the questions on instances and images), Mounts (`sync_mounts` and the stamps),
--             Guest (waits and guest commands), Network (ACLs and the bridge), Address (the address among those of
--             the VM), Images (`resolve_vm_image`), Devices (the disks of a new VM), Instance (`create_instance`,
--             start, stop, destroy, `guest_ip`).
--   Publish   src/sandboxsh/publish.py: `Publisher`.
--   Cli       src/sandboxsh/cli.py. Ports (`_publish` and what it needs), Lifecycle (`_up`, down, destroy,
--             recreate, shell, exec, agent), Images (the commands over images and the cache), Doctor, Effective
--             (`plan_command`), Commands (the others).
--   Prelude, FilePath, Json, Errors: what the parts share. An exception is a value of `Error`, with one
--             constructor for each kind of message; `crash` is an exception that is no SandboxshError.
--   Platform, Host: parameters. `Platform` is Python's standard library as the program uses it (the Unicode
--             database, `ipaddress`, SHA-256, `resolve` and `exists`); `Host` is the environment and the
--             answers at a prompt, which may depend on all that was asked before.
--   Tests     runs on sample data, and the theorems at concrete data.
--
-- How they interact: `load_config` gives a `ProjectConfig`; the functions of Security take it, with a file
-- of the host's state (the ledger, the registry, the endpoints) as it was read, and return a result beside
-- the file they leave. `build_acl_policy` reads the host's endpoints by the reader of Config. A plan of
-- Image takes the stages and the manifest, and asks Incus for the source and the cache. The commands of
-- Cli call Security, Incus, Image and Publish. These work on a `State`: the ledger, the registry, the
-- document of the builds' manifest, and the history of events (commands with their outcomes, questions,
-- lines, pauses). What a command answers is a parameter of the `System`, a function of the history before
-- it, so that a theorem holds for every behaviour of Incus, of the guest and of other users in between. The
-- guest's files, the wall clock, the tokens of the workers and the other holders of the build lock are the
-- `Workshop`, a parameter too.
--
-- Numbers are natural numbers, or integers where the source's may be negative; Python's have no bound. A
-- moment is a number of microseconds since the year 1. Two loops are not structural and run on fuel. The
-- one over suffixes for a guest path has the number of targets in use, which is enough by
-- Config.Mounts.Targets.free_target_lem. The wait for a guest command has one round for each
-- millisecond of its timeout and one more, 300001 for the agent (600001 in a build) and 120001 for a
-- mount, which is enough by Incus.Guest.Waiting.wait_for_guest_command-Ends for a clock that each pause
-- moves on.
--
-- Not modelled: of incus.py the environment of the client; of cli.py init and update, which write
-- files and run the installer, and the parsing of arguments; the time that a process waits for the
-- build lock; of process.py the input, the environment and the capture of a command; the JSON text of
-- the state files and their replacement on disk; the messages of errors beyond the values they show,
-- and their notes; the limit on the digits of `int`; files that are not UTF-8. A JSON float is kept as
-- its part before the point, which is what the program takes of it.
pub mod Prelude
pub mod FilePath
pub mod Json
pub mod Errors
pub mod Platform
pub mod Host
pub mod Config
pub mod Security
pub mod Image
pub mod System
pub mod Incus
pub mod Publish
pub mod Cli
pub mod Tests
