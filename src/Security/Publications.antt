-- ===== src/Security/Publications.antt =====
-- security.py: `approved_publications`.
pub mod Recorded
use derico_sandbox.Config.Project.{ProjectConfig, project_key, publishable}
use derico_sandbox.Errors.{Result, aborted, crash, err, ok, ◌>>=◌}
use derico_sandbox.Host.{Host, Question, abort, accept, decline, publish}
use derico_sandbox.Prelude.{
  Bool, List, String, [], contains, false, if◌then◌else◌, is_empty, nat_Eq, not, string_Eq, true,
  ◌++◌, ◌∷◌,
}
use derico_sandbox.Prelude.Dict.{put}
use derico_sandbox.Security.Ledger.{stored, Ledger, LedgerFile, approvals_of, load_approvals}
use derico_sandbox.Config.Ports
use derico_sandbox.Config.Ports.{PortMapping}

-- The locals of the loop: `recorded`, `approved`, `pending`, `changed`, and what was asked so far.
pub record Split : Type 0 where
  pub recorded : List String
  pub approved : List PortMapping
  pub pending : List PortMapping
  pub changed : Bool
  pub asked : List Question

unfoldable pub save_split : ProjectConfig → LedgerFile → Ledger → Split → LedgerFile
save_split config file ledger s =
    let old = approvals_of ledger (project_key config) in
    if s.changed
    then stored (put ledger (project_key config) (record old { publish = s.recorded }))
    else file

module _ (host : Host) (prompt : Bool) where
  unfoldable pub split_one : PortMapping → Split → Result Split
  split_one mapping s =
      let key = Ports.approval_key mapping in
      let postponed = record s { pending = s.pending ++ mapping ∷ [] } in
      let answer : Result Split = elim (host.confirm s.asked (publish mapping)) [
        | accept ↦ ok (record s {
          recorded = s.recorded ++ key ∷ [];
          approved = s.approved ++ mapping ∷ [];
          changed = true;
          asked = publish mapping ∷ s.asked;
        })
        | decline ↦ ok (record postponed { asked = publish mapping ∷ s.asked })
        | abort ↦ err (crash aborted)
      ] in
      if contains s.recorded key
      then ok (record s { approved = s.approved ++ mapping ∷ [] })
      else if not prompt
      then ok postponed
      else answer

  unfoldable pub split_all : List PortMapping → Split → Result Split
  split_all [] s = ok s
  split_all (m ∷ ms) s = do s' ← split_one m s; split_all ms s'

  -- The split of the requested publications, `(approved, pending)`, beside the ledger file.
  unfoldable pub approved_publications :
      ProjectConfig → LedgerFile → Result (List PortMapping × List PortMapping) × LedgerFile
  approved_publications config file =
      let start = λ (ledger : Ledger).
        let project = approvals_of ledger (project_key config) in
        split_all (publishable config) (record {
          recorded = project.publish;
          approved = [];
          pending = [];
          changed = false;
          asked = [];
        }) in
      let run : Result (List PortMapping × List PortMapping) × LedgerFile =
        elim (load_approvals file) [
          | err e ↦ (err e, file)
          | ok ledger ↦ elim (start ledger) [
            | ok s ↦ (ok (s.approved, s.pending), save_split config file ledger s)
            | err e ↦ (err e, file)
          ]
        ] in
      if is_empty (publishable config) then (ok ([], []), file) else run
