-- ===== src/Security/Publications/Recorded.antt =====
-- security.py: the laws of `approved_publications`, its result against the ledger file it leaves.
use derico_sandbox.Prelude.Dict.{get-put}
use derico_sandbox.Security.Approvals.Steps.{contains-snoc, contains-snoc_self}
use mathlib.Core.Path.{subst}
use derico_sandbox.Config.Ports.{PortMapping}
use derico_sandbox.Config.Project.{ProjectConfig, project_key, publishable}
use derico_sandbox.Errors.{ok, >>=-eq-ok, ok_injective, Result-cases}
use derico_sandbox.Host.{Host, Answer, Question, abort, accept, decline, publish}
use derico_sandbox.Prelude.{
  All, Bool, Bool-cases, List, String, [], contains, false, filter, inl, inr, nat_Eq, not,
  string_Eq, true, ◌++◌, ◌∷◌, ◌≡◌, is_empty, refl, ◌∙◌, All-append, All-map_of, ◌⊎◌, ap, arith,
  eq_iff, sym, is_empty_nil,
}
use derico_sandbox.Security.Ledger.{Ledger, LedgerFile, approvals_of, load_approvals, granted}
use derico_sandbox.Security.Publications.{
  Split, approved_publications, save_split, split_all, split_one,
}
use derico_sandbox.Config.Ports
use mathlib.Core.List.{append-nil, append_assoc}

-- The publication is on record for the project.
abbrev pub is_recorded : List String → PortMapping → Bool
is_recorded recorded m = contains recorded (Ports.approval_key m)

module _ (host : Host) where
  split_all_silent :
      (ms : List PortMapping) (s : Split)
      → split_all host false ms s
        ≡ ok (record s {
          approved = s.approved ++ filter (is_recorded s.recorded) ms;
          pending = s.pending ++ filter (λ m. not (is_recorded s.recorded m)) ms;
        })
  unfolding split_all split_one
  split_all_silent [] s = rw (append-nil, append-nil) refl
  split_all_silent (m ∷ ms) s = elim (Bool-cases (is_recorded s.recorded m)) [
    | inl known ↦
        rw known (
          split_all_silent ms (record s { approved = s.approved ++ m ∷ [] }) ∙ rw append_assoc refl)
    | inr new ↦
        rw new
          (split_all_silent ms (record s { pending = s.pending ++ m ∷ [] }) ∙ rw append_assoc refl)
  ]

  -- Without a prompt the publications that are asked for are split into those on record and the others,
  -- each in their order, and the ledger file stays as it is.
  pub approved_publications_silent :
      (config : ProjectConfig) (file : LedgerFile) (ledger : Ledger)
      → load_approvals file ≡ ok ledger
      → let recorded = (approvals_of ledger (project_key config)).publish in
        approved_publications host false config file ≡ (
          ok (
            filter (is_recorded recorded) (publishable config),
            filter (λ m. not (is_recorded recorded m)) (publishable config),
          ),
          file,
        )
  unfolding approved_publications save_split
  approved_publications_silent config file ledger read =
      elim (Bool-cases (is_empty (publishable config))) [
        | inl nothing ↦ rw (is_empty_nil (publishable config) nothing) refl
        | inr some_ ↦ rw (some_, read) (rw (split_all_silent (publishable config) _) refl)
      ]

-- What a step or the loop does to the record: it only adds to it, what it approves is on it, and where
-- nothing is marked as changed it is the same.
pub record IsGrowth (s t : Split) : Type 0 where
  pub kept : (k : String) → contains s.recorded k ≡ true → contains t.recorded k ≡ true
  pub known :
      All (λ m. is_recorded s.recorded m ≡ true) s.approved
      → All (λ m. is_recorded t.recorded m ≡ true) t.approved
  pub marked : t.changed ≡ false → (s.changed ≡ false) × (t.recorded ≡ s.recorded)

IsGrowth-trans : {s t u : Split} → IsGrowth s t → IsGrowth t u → IsGrowth s u
IsGrowth-trans f g = record {
  kept = λ k h. g.kept k (f.kept k h);
  known = λ h. g.known (f.known h);
  marked = λ h.
      let (same, last) = g.marked h in
      let (first, before) = f.marked same in (first, last ∙ before);
}

answers : (a : Answer) → (a ≡ accept) ⊎ ((a ≡ decline) ⊎ (a ≡ abort))
answers accept = inl refl
answers decline = inr (inl refl)
answers abort = inr (inr refl)

module _ (s : Split) (m : PortMapping) where
  approved-IsGrowth :
      is_recorded s.recorded m ≡ true → IsGrowth s (record s { approved = s.approved ++ m ∷ [] })
  approved-IsGrowth old = record {
    kept = λ k h. h;
    known = λ h. All-append (λ n. is_recorded s.recorded n ≡ true) s.approved (m ∷ []) h (old, tt);
    marked = λ h. (h, refl);
  }

  postponed-IsGrowth :
      (asked : List Question)
      → IsGrowth s (record s { pending = s.pending ++ m ∷ []; asked = asked })
  postponed-IsGrowth asked = record { kept = λ k h. h; known = λ h. h; marked = λ h. (h, refl) }

  accepted-IsGrowth :
      (asked : List Question)
      → IsGrowth s (record s {
        recorded = s.recorded ++ Ports.approval_key m ∷ [];
        approved = s.approved ++ m ∷ [];
        changed = true;
        asked = asked;
      })
  accepted-IsGrowth asked =
      let key = Ports.approval_key m in
      record {
        kept = contains-snoc s.recorded key;
        known = λ h.
            All-append (λ n. is_recorded (s.recorded ++ key ∷ []) n ≡ true) s.approved (m ∷ [])
              (All-map_of _ _ s.approved (λ n. contains-snoc s.recorded key (Ports.approval_key n))
                h)
              (contains-snoc_self s.recorded key, tt);
        marked = λ h. cc;
      }

module _ (host : Host) (prompt : Bool) where
  split_one-IsGrowth :
      (m : PortMapping) (s t : Split) → split_one host prompt m s ≡ ok t → IsGrowth s t
  unfolding split_one
  split_one-IsGrowth m s t h = elim (Bool-cases (is_recorded s.recorded m)) [
    | inl old ↦ subst (IsGrowth s) (ok_injective (rw old at h)) (approved-IsGrowth s m old)
    | inr new ↦ elim (Bool-cases prompt) [
      | inr silent ↦
          subst (IsGrowth s) (ok_injective (rw (new, silent) at h)) (postponed-IsGrowth s m s.asked)
      | inl asks ↦ elim (answers (host.confirm s.asked (publish m))) [
        | inl agreed ↦
            subst (IsGrowth s) (ok_injective (rw (new, asks, agreed) at h))
              (accepted-IsGrowth s m (publish m ∷ s.asked))
        | inr (inl declined) ↦
            subst (IsGrowth s) (ok_injective (rw (new, asks, declined) at h))
              (postponed-IsGrowth s m (publish m ∷ s.asked))
        | inr (inr stopped) ↦ let raised = rw (new, asks, stopped) at h in cc
      ]
    ]
  ]

  split_all-IsGrowth :
      (ms : List PortMapping) (s t : Split) → split_all host prompt ms s ≡ ok t → IsGrowth s t
  unfolding split_all
  split_all-IsGrowth [] s t h =
      subst (IsGrowth s) (ok_injective h)
        (record { kept = λ k q. q; known = λ q. q; marked = λ q. (q, refl) })
  split_all-IsGrowth (m ∷ ms) s t h =
      let (u, first, rest) = >>=-eq-ok (split_one host prompt m s) _ h in
      IsGrowth-trans (split_one-IsGrowth m s u first) (split_all-IsGrowth ms u t rest)

  -- The publications that the file holds for the project after a run are those of the loop.
  granted-save_split :
      (config : ProjectConfig) (file : LedgerFile) (ledger : Ledger) (t : Split)
      → load_approvals file ≡ ok ledger
      → (t.changed ≡ false → t.recorded ≡ (approvals_of ledger (project_key config)).publish)
      → (granted (save_split config file ledger t) (project_key config)).publish ≡ t.recorded
  unfolding save_split load_approvals
  granted-save_split config file ledger t read same = elim (Bool-cases t.changed) [
    | inl changed ↦ rw changed (
        ground (
          arith,
          get-put ledger (project_key config) (project_key config)
              (record (approvals_of ledger (project_key config)) { publish = t.recorded }),
          eq_iff (project_key config) (project_key config),
        ))
    | inr kept ↦ rw kept (ground (arith, same kept))
  ]

  -- Every publication that a run approves is on record for the project in the ledger file that the run
  -- leaves.
  pub approved_publications-is_recorded :
      (config : ProjectConfig) (file file' : LedgerFile) (approved pending : List PortMapping)
      → approved_publications host prompt config file ≡ (ok (approved, pending), file')
      → All (λ m. is_recorded (granted file' (project_key config)).publish m ≡ true) approved
  unfolding approved_publications
  approved_publications-is_recorded config file file' approved pending h =
      elim (Bool-cases (is_empty (publishable config))) [
        | inl nothing ↦
            let done = rw nothing at h in
            subst
              (λ ms.
                All (λ m. is_recorded (granted file' (project_key config)).publish m ≡ true) ms)
              (ap (λ r. r.0) (ok_injective (ap (λ r. r.0) done))) tt
        | inr some_ ↦ elim (Result-cases (load_approvals file)) [
          | inr (e, refused) ↦ let raised = rw (some_, refused) at h in cc
          | inl (ledger, read) ↦
              let start : Split = record {
                recorded = (approvals_of ledger (project_key config)).publish;
                approved = [];
                pending = [];
                changed = false;
                asked = [];
              } in
              elim (Result-cases (split_all host prompt (publishable config) start)) [
                | inr (e, refused) ↦ let raised = rw (some_, read, refused) at h in cc
                | inl (t, ran) ↦
                    let done = rw (some_, read, ran) at h in
                    let growth = split_all-IsGrowth (publishable config) start t ran in
                    let held =
                      granted-save_split config file ledger t read (λ q. (growth.marked q).1) in
                    subst
                      (λ ms.
                        All (λ m. is_recorded (granted file' (project_key config)).publish m ≡ true)
                          ms)
                      (ap (λ r. r.0) (ok_injective (ap (λ r. r.0) done)))
                      (subst (λ ks. All (λ m. is_recorded ks m ≡ true) t.approved)
                        (sym held
                          ∙ ap (λ f. (granted f (project_key config)).publish) (ap (λ r. r.1) done))
                        (growth.known tt))
              ]
        ]
      ]
