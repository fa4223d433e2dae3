-- ===== src/Security/Approvals/Records.antt =====
-- What `ensure_project_approvals` grants and what it leaves in the ledger file.
use mathlib.Core.Path.{subst}
use derico_sandbox.Config.Project.{ProjectConfig, project_key}
use derico_sandbox.Errors.{>>=-eq-ok, Error, err, ok, Result-cases, ok_injective}
use derico_sandbox.Host.{Host}
use derico_sandbox.Platform.{Platform}
use derico_sandbox.Prelude.{
  All, Bool, [], arith, false, true, ◌≡◌, Bool-cases, String, eq_iff, inl, inr, nat_Eq, string_Eq,
  sym, ◌↔◌, ◌≢◌, ap, refl, ◌∙◌,
}
use derico_sandbox.Security.Approvals.{
  Session, approve_entries, approve_mounts, ensure_project_approvals, review, save_review,
}
use derico_sandbox.Security.Approvals.Steps.{
  IsStep, approve_entries_covered, approve_mounts_covered, covers_entry, covers_mount,
  Extends-covers_mounts, IsStep-trans, approve_entries_lem, approve_mounts_lem,
}
use derico_sandbox.Security.Mounts.{assert_mounts_safe}
use derico_sandbox.Prelude.Dict.{put, get-put}
use derico_sandbox.Security.Ledger.{
  Approvals, Ledger, LedgerFile, approvals_of, load_approvals, granted,
}

-- The approvals cover every mount and endpoint of the configuration.
abbrev pub Covers : Approvals → ProjectConfig → Type 0
Covers a config =
    All (λ m. covers_mount a m ≡ true) config.mounts
    × All (λ e. covers_entry a e ≡ true) config.firewall_allow

abbrev start_session : Approvals → Session
start_session a = record { approvals = a; changed = false; asked = [] }

module _ (host : Host) (platform : Platform) (config : ProjectConfig) where
  review_lem :
      (prompt : Bool) (file : LedgerFile) (ledger : Ledger) (t : Session)
      → review host prompt platform config file ≡ ok (ledger, t)
      → (assert_mounts_safe platform host config.mounts ≡ ok tt)
        × (load_approvals file ≡ ok ledger)
        × IsStep prompt (start_session (approvals_of ledger (project_key config))) t
        × Covers t.approvals config
  unfolding review
  review_lem prompt file ledger t h =
      let (_, safe, h1) = >>=-eq-ok (assert_mounts_safe platform host config.mounts) _ h in
      let (l, read, h2) = >>=-eq-ok (load_approvals file) _ h1 in
      let start = start_session (approvals_of l (project_key config)) in
      let (seen, first, h3) = >>=-eq-ok (approve_mounts host prompt config.mounts start) _ h2 in
      let (done, second, last) =
        >>=-eq-ok (approve_entries host prompt config.firewall_allow seen) _ h3 in
      let (step, mounts) = approve_mounts_lem host prompt config.mounts start seen first in
      let (step', entries) =
        approve_entries_lem host prompt config.firewall_allow seen done second in
      subst IsReview (ok_injective last) (
        safe,
        read,
        IsStep-trans step step',
        (
          Extends-covers_mounts seen.approvals done.approvals config.mounts step'.extends mounts,
          entries,
        ),
      )
    where
      IsReview : Ledger × Session → Type 0
      IsReview r =
          (assert_mounts_safe platform host config.mounts ≡ ok tt)
          × (load_approvals file ≡ ok r.0)
          × IsStep prompt (start_session (approvals_of r.0 (project_key config))) r.1
          × Covers r.1.approvals config

  review_covered :
      (prompt : Bool) (file : LedgerFile) (ledger : Ledger)
      → assert_mounts_safe platform host config.mounts ≡ ok tt
      → load_approvals file ≡ ok ledger
      → Covers (approvals_of ledger (project_key config)) config
      → review host prompt platform config file
        ≡ ok (ledger, start_session (approvals_of ledger (project_key config)))
  unfolding review
  review_covered prompt file ledger safe read covered =
      let start = start_session (approvals_of ledger (project_key config)) in
      rw (safe, read, approve_mounts_covered host prompt config.mounts start covered.0)
        (rw (approve_entries_covered host prompt config.firewall_allow start covered.1))

  -- The branch of a run that raises.
  ensure_project_approvals-err :
      (prompt : Bool) (file : LedgerFile) (e : Error)
      → (ensure_project_approvals host prompt platform config file).0 ≡ err e
      → (ensure_project_approvals host prompt platform config file).1 ≡ file
  unfolding ensure_project_approvals
  ensure_project_approvals-err prompt file e h = ground arith

  ensure_project_approvals-cases :
      (prompt : Bool) (file : LedgerFile)
      → (ensure_project_approvals host prompt platform config file).0 ≡ ok tt
      → (r : Ledger × Session) × (review host prompt platform config file ≡ ok r)
        × ((ensure_project_approvals host prompt platform config file).1
            ≡ save_review config file r.0 r.1)
  unfolding ensure_project_approvals
  ensure_project_approvals-cases prompt file h =
      elim (Result-cases (review host prompt platform config file)) [
        | inl (r, q) ↦ (r, q, ground arith)
        | inr (e, q) ↦ absurd (ground arith)
      ]

  -- The approvals of the project that the file holds after a review are those of the session.
  granted-save_review :
      (file : LedgerFile) (ledger : Ledger) (t : Session)
      → load_approvals file ≡ ok ledger
      → (t.changed ≡ false → t.approvals ≡ approvals_of ledger (project_key config))
      → (ledger' : Ledger) × (load_approvals (save_review config file ledger t) ≡ ok ledger')
        × (approvals_of ledger' (project_key config) ≡ t.approvals)
  unfolding save_review load_approvals
  granted-save_review file ledger t read same = elim (Bool-cases t.changed) [
    | inl changed ↦ (
      put ledger (project_key config) t.approvals,
      ground arith,
      ground (
        arith,
        get-put ledger (project_key config) (project_key config) t.approvals,
        eq_iff (project_key config) (project_key config),
      ),
    )
    | inr kept ↦ (ledger, ground arith, sym (same kept))
  ]

  granted-save_review_other :
      (file : LedgerFile) (ledger : Ledger) (t : Session) (j : String)
      → load_approvals file ≡ ok ledger
      → j ≢ project_key config
      → granted (save_review config file ledger t) j ≡ granted file j
  unfolding save_review load_approvals
  granted-save_review_other file ledger t j read other =
      ground
        (arith, get-put ledger (project_key config) j t.approvals, eq_iff j (project_key config))

  ensure_project_approvals-of_review :
      (prompt : Bool) (file : LedgerFile) (r : Ledger × Session)
      → review host prompt platform config file ≡ ok r
      → ensure_project_approvals host prompt platform config file
        ≡ (ok tt, save_review config file r.0 r.1)
  unfolding ensure_project_approvals
  ensure_project_approvals-of_review prompt file r q = ground arith

  -- After a run that returns, with or without a prompt, the project has what it asks for on record: a
  -- second run, prompted or not, asks nothing, returns, and leaves the ledger file as the first one left it.
  pub ensure_project_approvals_twice :
      (prompt prompt' : Bool) (file file' : LedgerFile)
      → ensure_project_approvals host prompt platform config file ≡ (ok tt, file')
      → ensure_project_approvals host prompt' platform config file' ≡ (ok tt, file')
  unfolding save_review
  ensure_project_approvals_twice prompt prompt' file file' h =
      let (r, reviewed, left) = ensure_project_approvals-cases prompt file (ap (λ p. p.0) h) in
      let (safe, read, step, covered) = review_lem prompt file r.0 r.1 reviewed in
      let (ledger', read', same) =
        granted-save_review file r.0 r.1 read
          (λ q. ap (λ (t : Session). t.approvals) (step.marked q)) in
      let saved : save_review config file r.0 r.1 ≡ file' = sym left ∙ ap (λ p. p.1) h in
      ensure_project_approvals-of_review prompt' file'
        (ledger', start_session (approvals_of ledger' (project_key config)))
        (review_covered prompt' file' ledger' safe
          (subst (λ f. load_approvals f ≡ ok ledger') saved read')
          (subst (λ a. Covers a config) (sym same) covered))

  ensure_project_approvals-silent_run :
      (file : LedgerFile)
      → (ensure_project_approvals host false platform config file).0 ≡ ok tt
      → ((ensure_project_approvals host false platform config file).1 ≡ file)
        × (assert_mounts_safe platform host config.mounts ≡ ok tt)
        × (ledger : Ledger) × (load_approvals file ≡ ok ledger)
        × Covers (approvals_of ledger (project_key config)) config
  unfolding save_review
  ensure_project_approvals-silent_run file h =
      let (r, reviewed, left) = ensure_project_approvals-cases false file h in
      let (safe, read, step, covered) = review_lem false file r.0 r.1 reviewed in
      let same = step.silent refl in
      (
        left ∙ ap (save_review config file r.0) same,
        safe,
        r.0,
        read,
        subst (λ (t : Session). Covers t.approvals config) same covered,
      )

  -- Without a prompt the ledger file stays as it is, and the run returns exactly when every mount is safe,
  -- the ledger can be read, and it covers every mount outside the project and every endpoint.
  pub ensure_project_approvals_silent :
      (file : LedgerFile)
      → ((ensure_project_approvals host false platform config file).1 ≡ file)
        × ((ensure_project_approvals host false platform config file).0 ≡ ok tt ↔ (
            (assert_mounts_safe platform host config.mounts ≡ ok tt)
            × (ledger : Ledger) × (load_approvals file ≡ ok ledger)
            × Covers (approvals_of ledger (project_key config)) config))
  ensure_project_approvals_silent file = (
    elim (Result-cases (ensure_project_approvals host false platform config file).0) [
      | inl (_, q) ↦ (ensure_project_approvals-silent_run file q).0
      | inr (e, q) ↦ ensure_project_approvals-err false file e q
    ],
    (
      λ h.
          let (kept, safe, ledger, read, covered) = ensure_project_approvals-silent_run file h in
          (safe, ledger, read, covered),
      λ (safe, ledger, read, covered).
          ap (λ p. p.0)
            (ensure_project_approvals-of_review false file _
              (review_covered false file ledger safe read covered)),
    ),
  )

  -- A run changes the approvals of no other project.
  pub ensure_project_approvals-keeps_others :
      (prompt : Bool) (file : LedgerFile) (j : String)
      → j ≢ project_key config
      → granted (ensure_project_approvals host prompt platform config file).1 j ≡ granted file j
  ensure_project_approvals-keeps_others prompt file j other =
      elim (Result-cases (ensure_project_approvals host prompt platform config file).0) [
        | inl (_, q) ↦
            let (r, reviewed, left) = ensure_project_approvals-cases prompt file q in
            let (safe, read, step, covered) = review_lem prompt file r.0 r.1 reviewed in
            ap (λ f. granted f j) left ∙ granted-save_review_other file r.0 r.1 j read other
        | inr (e, q) ↦ ap (λ f. granted f j) (ensure_project_approvals-err prompt file e q)
      ]
