-- ===== src/Image/Build/Attached.antt =====
-- The attachment of an ACL before each start of a VM, and the statements that keep to it.
use mathlib.Core.Path.{subst}
use derico_sandbox.System.{throw}
use derico_sandbox.Errors.{Error, Result, err, ok}
use derico_sandbox.Incus.Client.{call, incus_argv}
use derico_sandbox.Incus.Guarded.{Since, attaches_acl, none-starts, quiet-starts_none, starts}
use derico_sandbox.Incus.Quiet.{is_quiet, starts_none}
use derico_sandbox.Prelude.{
  Bool, List, String, [], ◌∷◌, ◌≡◌, true, false, if◌then◌else◌, none, string_Eq,
}
use derico_sandbox.System.{
  Action, Event, State, System, attempt, recover, resume, when, ◌>>=◌, Reply, ran, return, run,
}
use derico_sandbox.System.Effects.{Only}
use derico_sandbox.System.Outcomes.{Anything, Closed, Outcome, >>=-Outcome, run-Outcome}

-- Each start of a VM stands behind the attachment of the ACL to that VM.
abbrev pub IsAttached : String → List Event → Type 0
IsAttached acl [] = Unit
IsAttached acl (e ∷ h) =
    ((v : String) → starts v e ≡ true → Since (attaches_acl v acl) h) × IsAttached acl h

module _ (acl : String) where
  pub IsAttached-Closed : Closed starts_none (IsAttached acl)
  IsAttached-Closed h e q g = (λ v s. absurd (none-starts v e q s), g)

  pub quiet-Closed : Closed is_quiet (IsAttached acl)
  quiet-Closed h e q g = IsAttached-Closed h e (quiet-starts_none e q) g

  -- The statement keeps to it, however it ends.
  pub record Keeps {ℓ} {X : Type ℓ} (act : Action X) : Type 0 where
    pub keeps : (s : State) → IsAttached acl s.history → IsAttached acl (act s).1.history

module _ {acl : String} where
  pub return-Keeps {ℓ} : {X : Type ℓ} (x : X) → Keeps acl (return x)
  return-Keeps x = record { keeps = λ s g. g }

  pub throw-Keeps {ℓ} : (X : Type ℓ) (e : Error) → Keeps acl {X = X} (throw e)
  throw-Keeps X e = record { keeps = λ s g. g }

  pub Only-Keeps {ℓ} : {X : Type ℓ} (act : Action X) → Only starts_none act → Keeps acl act
  Only-Keeps act only = record {
    keeps = λ s g. only.keeps (IsAttached acl) (IsAttached-Closed acl) s g;
  }

  pub >>=-Keeps {ℓ κ} :
      {X : Type ℓ} {Y : Type κ} (first : Action X) (next : X → Action Y)
      → Keeps acl first
      → ((x : X) → Keeps acl (next x))
      → Keeps acl (first >>= next)
  >>=-Keeps {X} first next f n = record { keeps = λ s g. settle (first s) (f.keeps s g) }
    where
      settle :
          (r : Result X × State)
          → IsAttached acl r.1.history
          → IsAttached acl (resume next r).1.history
      settle (ok x, t) g = (n x).keeps t g
      settle (err e, t) g = g

  pub attempt-Keeps {ℓ} :
      {X : Type ℓ} (body : Action X) (handler : Error → Action X)
      → Keeps acl body
      → ((e : Error) → Keeps acl (handler e))
      → Keeps acl (attempt body handler)
  attempt-Keeps {X} body handler b h = record { keeps = λ s g. settle (body s) (b.keeps s g) }
    where
      settle :
          (r : Result X × State)
          → IsAttached acl r.1.history
          → IsAttached acl (recover handler r).1.history
      settle (ok x, t) g = g
      settle (err e, t) g = (h e).keeps t g

  pub if-Keeps {ℓ} :
      {X : Type ℓ} (b : Bool) (x y : Action X)
      → Keeps acl x
      → Keeps acl y
      → Keeps acl (if b then x else y)
  if-Keeps true x y p q = p
  if-Keeps false x y p q = q

  pub when-Keeps : (b : Bool) (body : Action (Unit {0})) → Keeps acl body → Keeps acl (when b body)
  when-Keeps true body k = k
  when-Keeps false body k = return-Keeps _

module _ (acl : String) (system : System) where
  started :
      (worker : String) (reply : Reply) (h : List Event)
      → IsAttached acl h
      → Since (attaches_acl worker acl) h
      → IsAttached acl (ran (incus_argv system ("start" ∷ worker ∷ [])) reply ∷ h)
  started worker reply h g a =
      ((λ v s. subst (λ w. Since (attaches_acl w acl) h) ((string_Eq.beq_iff worker v).0 s) a), g)

  pub start-Keeps :
      (worker : String) (s : State)
      → IsAttached acl s.history
      → Since (attaches_acl worker acl) s.history
      → Outcome (IsAttached acl) Anything (call system ("start" ∷ worker ∷ []) s)
  start-Keeps worker s g a =
      let argv = incus_argv system ("start" ∷ worker ∷ []) in
      >>=-Outcome (IsAttached acl) Anything Anything (run system argv true none s)
        (λ out. return tt)
        (run-Outcome system argv true none s (IsAttached acl) Anything g
          (λ reply. started worker reply s.history g a) (λ out f. tt))
        (λ out t g _. (g, tt))
