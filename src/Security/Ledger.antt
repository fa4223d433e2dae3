-- ===== src/Security/Ledger.antt =====
-- security.py: the ledger of approvals, outside every project. The file is read and written whole; what
-- JSON it may hold beside what `_save_approvals` writes is `unsupported`.
use mathlib.Core.Option
use derico_sandbox.Errors.{Result, err, ok, security_error, unreadable_ledger, unsupported_ledger}
use derico_sandbox.Prelude.{List, String, [], nat_Eq, string_Eq}
use derico_sandbox.Prelude.Dict.{Dict, get}

pub record Approvals : Type 0 where
  pub mounts : List String
  pub firewall : List String
  -- absent in the file until the first publication
  pub publish : List String

abbrev no_approvals : Approvals
no_approvals = record { mounts = []; firewall = []; publish = [] }

abbrev pub Ledger : Type 0
Ledger = Dict String Approvals

pub data LedgerFile : Type 0 where
  missing unreadable unsupported : LedgerFile
  stored : Ledger → LedgerFile

-- `_load_approvals`
unfoldable pub load_approvals : LedgerFile → Result Ledger
load_approvals missing = ok []
load_approvals unreadable = err (security_error unreadable_ledger)
load_approvals unsupported = err (security_error unsupported_ledger)
load_approvals (stored ledger) = ok ledger

-- `ledger["projects"].setdefault(key, {"mounts": [], "firewall": []})`
abbrev pub approvals_of : Ledger → String → Approvals
approvals_of ledger key = Option.get_or (get ledger key) no_approvals

-- What the ledger file grants a project: nothing, if it cannot be read.
abbrev pub granted : LedgerFile → String → Approvals
granted file key = elim (load_approvals file) [
  | ok ledger ↦ approvals_of ledger key
  | err e ↦ no_approvals
]
