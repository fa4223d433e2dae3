-- ===== src/System.antt =====
-- process.py: `Runner.run`, and the host around it. The state of a run is the history of what it did
-- outside of its own memory, newest first, with the two files of the host's state. What a command
-- answers and what the clock shows depend on the history, and are parameters.
pub mod Effects
pub mod Outcomes
pub mod Leaves
use derico_sandbox.Config.Names.{lower}
use derico_sandbox.Prelude.Decimal.{is_digit}
use Prim.Native.Char.{Char}
use derico_sandbox.FilePath.{FilePath}
use derico_sandbox.Host.{Answer, Host, abort, accept, decline}
use derico_sandbox.Json.{Real, Value}
use derico_sandbox.Platform.{Platform}
use derico_sandbox.Prelude.{
  ℕ, String, List, [], ◌∷◌, Bool, true, false, not, ◌&&◌, Option, none, some, if◌then◌else◌, suc,
  zero,
}
use derico_sandbox.Prelude.Int.{ℤ, pos, negsuc}
use derico_sandbox.Security.Endpoints.{EndpointsFile}
use derico_sandbox.Security.Hosts.{Lookup}
use derico_sandbox.Security.Ledger.{LedgerFile}
use derico_sandbox.Security.Registry.{RegistryFile}
use derico_sandbox.Errors.{
  Error, Result, err, ok, crash, aborted, file_not_found, command_error, command_timeout,
}

-- `Result` of process.py
pub record Output : Type 0 where
  pub stdout : String
  pub stderr : String
  pub returncode : ℤ

-- How a command that was started has ended; `expired` at its deadline.
pub data Reply : Type 0 where
  exited : Output → Reply
  expired : Reply

pub data Event : Type 0 where
  ran : List String → Reply → Event
  -- the process becomes this command
  replaced : List String → Event
  echoed : String → Event
  -- a line that begins so, and the failure that it tells of
  warned : String → Error → Event
  asked : String → Answer → Event
  -- milliseconds
  slept : ℕ → Event
  clock_read : Event

pub record System : Type 0 where
  pub platform : Platform
  pub host : Host
  pub uid : ℕ
  pub gid : ℕ
  -- the variable USER, and `os.getgroups()`
  pub user : Option String
  pub groups : List ℕ
  -- `grp.getgrnam("incus-admin")`: the group's id and its members
  pub admin_group : Option (ℕ × List String)
  -- SANDBOXSH_ALLOW_ADMIN is "1"
  pub allow_admin : Bool
  -- SANDBOXSH_STORAGE_POOL, or "default"
  pub pool : String
  -- CLAUDE_CONFIG_DIR, or ~/.claude
  pub claude_config : FilePath
  pub is_dir : FilePath → Bool
  pub is_file : FilePath → Bool
  -- `shutil.which(program)`
  pub which : String → Option String
  -- `json.loads`, or `none` for a `JSONDecodeError`, and `json.dumps`
  pub loads : String → Option Value
  pub dumps : Value → String
  -- `bool(x)` of a float
  pub is_nonzero : Real → Bool
  -- `s.lower()`, `s.splitlines()`, `s.split()` and `c.isdigit()`
  pub lower : String → String
  pub lines : String → List String
  pub words : String → List String
  pub is_digit : Char → Bool
  -- `quote(s, safe="")` and `shlex.quote(s)`
  pub url_quote : String → String
  pub shell_quote : String → String
  -- `str(ipaddress.ip_interface(s).ip)` and `str(ipaddress.IPv4Address(s))`, or `none` for a `ValueError`
  pub interface_ip : String → Option String
  pub ipv4_address : String → Option String
  pub getaddrinfo : String → Lookup
  pub endpoints : EndpointsFile
  -- `_interactive()`, and the answer to a `click.confirm` after this history
  pub interactive : Bool
  pub confirm : List Event → String → Answer
  -- `subprocess.run`: after this history, `none` where the program is not found
  pub respond : List Event → List String → Option Output
  -- the command is still running after that many milliseconds
  pub outlasts : List Event → List String → ℕ → Bool
  -- `time.monotonic()`, in milliseconds
  pub monotonic : List Event → ℕ

pub record State : Type 0 where
  pub history : List Event
  pub ledger : LedgerFile
  pub registry : RegistryFile
  -- what the manifest of the image builds holds, unless it is missing or cannot be read
  pub manifest : Option Value

abbrev pub push : Event → State → State
push event s = record s { history = event ∷ s.history }

-- A statement of the program: what it raises or returns, and the state that it leaves.
abbrev pub Action {ℓ} : Type ℓ → Type ℓ
Action X = State → Result X × State

module _ {ℓ} {X : Type ℓ} where
  abbrev pub return : X → Action X
  return x s = (ok x, s)

  abbrev pub throw : Error → Action X
  throw raised s = (err raised, s)

  -- A part of the program that has no effect.
  abbrev pub lift : Result X → Action X
  lift outcome s = (outcome, s)

  -- `except Exception as error: ...`, of a handler that raises in the end or returns.
  abbrev pub recover : (Error → Action X) → Result X × State → Result X × State
  recover handler (ok x, s) = (ok x, s)
  recover handler (err raised, s) = handler raised s

  abbrev pub attempt : Action X → (Error → Action X) → Action X
  attempt body handler s = recover handler (body s)

abbrev pub resume {ℓ κ} :
    {X : Type ℓ} {Y : Type κ} → (X → Action Y) → Result X × State → Result Y × State
resume next (ok x, s) = next x s
resume next (err raised, s) = (err raised, s)

infixl 5 ◌>>=◌ ◌>>◌
abbrev pub ◌>>=◌ {ℓ κ} : {X : Type ℓ} {Y : Type κ} → Action X → (X → Action Y) → Action Y
◌>>=◌ first next s = resume next (first s)

abbrev pub ◌>>◌ {ℓ κ} : {X : Type ℓ} {Y : Type κ} → Action X → Action Y → Action Y
first >> next = first >>= λ _. next

-- `if test: raise error`
abbrev pub throw_if : Bool → Error → Action (Unit {0})
throw_if true raised = throw raised
throw_if false raised = return tt

-- `if test: statement`
abbrev pub when : Bool → Action (Unit {0}) → Action (Unit {0})
when true body = body
when false body = return tt

-- A statement that only the history sees.
abbrev pub emit : Event → Action (Unit {0})
emit event s = (ok tt, push event s)

-- A line on the standard output or error stream.
abbrev pub say : String → Action (Unit {0})
say line = emit (echoed line)

-- One line for each item.
unfoldable pub say_all {ℓ} : {A : Type ℓ} → (A → String) → List A → Action (Unit {0})
say_all line [] = return tt
say_all line (x ∷ xs) = say (line x) >> say_all line xs

-- `bool(completed.returncode)`
abbrev pub failed : Output → Bool
failed out = elim out.returncode [ pos zero ↦ false | pos (suc n) ↦ true | negsuc n ↦ true ]

module _ (system : System) where
  abbrev pub is_late : List Event → List String → Option ℕ → Bool
  is_late history args none = false
  is_late history args (some t) = system.outlasts history args t

  abbrev pub finish : List String → Bool → Output → Bool → Action Output
  finish args check out true s = (err (command_timeout args), push (ran args expired) s)
  finish args check out false s = (
    if check && failed out then err (command_error args out.returncode out.stderr) else ok out,
    push (ran args (exited out)) s,
  )

  abbrev pub answer : List String → Bool → Option ℕ → Option Output → Action Output
  answer args check timeout none s = (err (crash file_not_found), s)
  answer args check timeout (some out) s = finish args check out (is_late s.history args timeout) s

  -- `Runner.run`. (The input, the environment and whether the output is captured are the command's own.)
  unfoldable pub run : List String → Bool → Option ℕ → Action Output
  run args check timeout s = answer args check timeout (system.respond s.history args) s

  -- `Runner.exec`
  unfoldable pub exec : List String → Action (Unit {0})
  exec args = emit (replaced args)

  -- `time.monotonic()`
  unfoldable pub now : Action ℕ
  now s = (ok (system.monotonic (clock_read ∷ s.history)), push clock_read s)

  abbrev answered : Answer → Action Bool
  answered accept = return true
  answered decline = return false
  answered abort = throw (crash aborted)

  -- `click.confirm`
  unfoldable pub ask : String → Action Bool
  ask question s =
      let answer = system.confirm s.history question in
      answered answer (push (asked question answer) s)
