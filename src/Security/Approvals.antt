-- ===== src/Security/Approvals.antt =====
-- security.py: `_firewall_key`, `ensure_project_approvals` and `revoke_project_approvals`. What a run
-- leaves in the ledger file stands beside its result.
pub mod Steps
pub mod Records
use derico_sandbox.FilePath
use derico_sandbox.Config.Firewall.{FirewallEntry}
use derico_sandbox.Config.Project.{ProjectConfig, project_key}
use derico_sandbox.Errors.{
  Error, Result, aborted, crash, endpoint_denied, err, mount_denied, ok, security_error,
  unapproved_endpoint, unapproved_mount, ◌>>=◌, ◌>>◌,
}
use derico_sandbox.FilePath.{FilePath}
use derico_sandbox.Host.{Host, Question, abort, accept, decline, expose, reach}
use derico_sandbox.Platform.{Platform}
use derico_sandbox.Prelude.{
  Bool, List, String, [], contains, false, if◌then◌else◌, map, nat_Eq, none, some, string_Eq, true,
  ◌++◌, ◌<>◌, ◌||◌, ◌∷◌,
}
use derico_sandbox.Prelude.Decimal.{show}
use derico_sandbox.Security.Mounts.{assert_mounts_safe}
use derico_sandbox.Prelude.Dict.{Dict, get, put, remove}
use derico_sandbox.Prelude.Text.{join}
use derico_sandbox.Security.Ledger.{
  stored, Approvals, Ledger, LedgerFile, approvals_of, load_approvals,
}
use derico_sandbox.Config.Mounts
use derico_sandbox.Config.Mounts.{Mount}

unfoldable pub firewall_key : FirewallEntry → String
firewall_key entry =
    entry.protocol
    <> "|"
    <> entry.host
    <> "|"
    <> join "," (map show entry.ports)
    <> "|"
    <> (if entry.allow_private then "private" else "public")

-- The locals of the two loops: the project's approvals, `changed`, and what was asked so far.
pub record Session : Type 0 where
  pub approvals : Approvals
  pub changed : Bool
  pub asked : List Question

-- `if changed: _save_approvals(ledger)`
unfoldable pub save_review : ProjectConfig → LedgerFile → Ledger → Session → LedgerFile
save_review config file ledger done =
    if done.changed then stored (put ledger (project_key config) done.approvals) else file

module _ (host : Host) (prompt : Bool) where
  -- `if not prompt: raise …`, then the question. `denied` is raised for a "no".
  unfoldable pub consent : Error → Error → Question → Session → Result (List Question)
  consent unapproved denied question session =
      let answer : Result (List Question) = elim (host.confirm session.asked question) [
        | accept ↦ ok (question ∷ session.asked)
        | decline ↦ err denied
        | abort ↦ err (crash aborted)
      ] in
      if prompt then answer else err unapproved

  -- The body of the loop over the mounts.
  unfoldable pub approve_mount : Mount → Session → Result Session
  approve_mount mount session =
      let key = Mounts.approval_key mount in
      let ask = do
        asked ←
            consent (security_error (unapproved_mount (FilePath.render mount.source) mount.target))
              (security_error mount_denied) (expose mount) session
        ok (record {
          approvals = record (session.approvals) { mounts = session.approvals.mounts ++ key ∷ [] };
          changed = true;
          asked = asked;
        })
      in if mount.inside_project || contains session.approvals.mounts key then ok session else ask

  -- The body of the loop over the endpoints.
  unfoldable pub approve_entry : FirewallEntry → Session → Result Session
  approve_entry entry session =
      let key = firewall_key entry in
      let ask = do
        asked ←
            consent (security_error (unapproved_endpoint entry.host entry.ports))
              (security_error endpoint_denied) (reach entry) session
        ok (record {
          approvals = record (session.approvals) {
            firewall = session.approvals.firewall ++ key ∷ [];
          };
          changed = true;
          asked = asked;
        })
      in if contains session.approvals.firewall key then ok session else ask

  unfoldable pub approve_mounts : List Mount → Session → Result Session
  approve_mounts [] session = ok session
  approve_mounts (m ∷ ms) session = do
    session' ← approve_mount m session
    approve_mounts ms session'

  unfoldable pub approve_entries : List FirewallEntry → Session → Result Session
  approve_entries [] session = ok session
  approve_entries (e ∷ es) session = do
    session' ← approve_entry e session
    approve_entries es session'

  -- All that comes before the ledger is saved: the ledger as it was read, and the session at the end.
  unfoldable pub review : Platform → ProjectConfig → LedgerFile → Result (Ledger × Session)
  review platform config file = do
    assert_mounts_safe platform host config.mounts
    ledger ← load_approvals file
    let project = approvals_of ledger (project_key config)
    seen ←
        approve_mounts config.mounts (record { approvals = project; changed = false; asked = [] })
    done ← approve_entries config.firewall_allow seen
    ok (ledger, done)

  unfoldable pub ensure_project_approvals :
      Platform → ProjectConfig → LedgerFile → Result (Unit {0}) × LedgerFile
  ensure_project_approvals platform config file = elim (review platform config file) [
    | ok r ↦ (ok tt, save_review config file r.0 r.1)
    | err e ↦ (err e, file)
  ]

unfoldable pub revoke_project_approvals :
    ProjectConfig → LedgerFile → Result (Unit {0}) × LedgerFile
revoke_project_approvals config file = elim (load_approvals file) [
  | ok ledger ↦ (
    ok tt,
    elim (get ledger (project_key config)) [
      | some approvals ↦ stored (remove ledger (project_key config))
      | none ↦ file
    ],
  )
  | err e ↦ (err e, file)
]
