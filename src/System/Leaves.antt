-- ===== src/System/Leaves.antt =====
-- Rules for statements that leave the files of the host's state alone (the ledger, the registry and the
-- manifest of the builds), and for what a statement that
-- returns has established about them.
use derico_sandbox.Errors.{Error, Result, err, ok}
use derico_sandbox.Prelude.{
  Bool, List, Option, String, false, if◌then◌else◌, none, refl, some, true, ℕ, ◌∙◌, ◌≡◌,
}
use derico_sandbox.Security.Ledger.{LedgerFile}
use derico_sandbox.Security.Registry.{RegistryFile}
use derico_sandbox.System.{
  Action, Event, Output, State, System, answer, emit, finish, is_late, lift, resume, return, run,
  throw, throw_if, when, ◌>>=◌,
}

pub record Leaves {ℓ} {X : Type ℓ} (act : Action X) : Type 0 where
  pub ledger : (s : State) → (act s).1.ledger ≡ s.ledger
  pub registry : (s : State) → (act s).1.registry ≡ s.registry
  pub manifest : (s : State) → (act s).1.manifest ≡ s.manifest

pub return-Leaves {ℓ} : {X : Type ℓ} (x : X) → Leaves (return x)
return-Leaves x = record { ledger = λ s. refl; registry = λ s. refl; manifest = λ s. refl }

pub lift-Leaves {ℓ} : {X : Type ℓ} (r : Result X) → Leaves (lift r)
lift-Leaves r = record { ledger = λ s. refl; registry = λ s. refl; manifest = λ s. refl }

pub throw-Leaves {ℓ} : (X : Type ℓ) (e : Error) → Leaves {X = X} (throw e)
throw-Leaves X e = record { ledger = λ s. refl; registry = λ s. refl; manifest = λ s. refl }

pub emit-Leaves : (event : Event) → Leaves (emit event)
emit-Leaves event = record { ledger = λ s. refl; registry = λ s. refl; manifest = λ s. refl }

pub throw_if-Leaves : (b : Bool) (e : Error) → Leaves (throw_if b e)
throw_if-Leaves true e = record { ledger = λ s. refl; registry = λ s. refl; manifest = λ s. refl }
throw_if-Leaves false e = record { ledger = λ s. refl; registry = λ s. refl; manifest = λ s. refl }

pub when-Leaves : (b : Bool) (body : Action (Unit {0})) → Leaves body → Leaves (when b body)
when-Leaves true body l = l
when-Leaves false body l = return-Leaves tt

pub if-Leaves {ℓ} :
    {X : Type ℓ} (b : Bool) (x y : Action X) → Leaves x → Leaves y → Leaves (if b then x else y)
if-Leaves true x y p q = p
if-Leaves false x y p q = q

pub >>=-Leaves {ℓ κ} :
    {X : Type ℓ} {Y : Type κ} (first : Action X) (next : X → Action Y)
    → Leaves first
    → ((x : X) → Leaves (next x))
    → Leaves (first >>= next)
>>=-Leaves {X} first next f n = record {
  ledger = λ s. ledgers (first s) ∙ f.ledger s;
  registry = λ s. registries (first s) ∙ f.registry s;
  manifest = λ s. manifests (first s) ∙ f.manifest s;
}
  where
    ledgers : (r : Result X × State) → (resume next r).1.ledger ≡ r.1.ledger
    ledgers (ok x, t) = (n x).ledger t
    ledgers (err e, t) = refl

    registries : (r : Result X × State) → (resume next r).1.registry ≡ r.1.registry
    registries (ok x, t) = (n x).registry t
    registries (err e, t) = refl

    manifests : (r : Result X × State) → (resume next r).1.manifest ≡ r.1.manifest
    manifests (ok x, t) = (n x).manifest t
    manifests (err e, t) = refl

pub run-Leaves :
    (system : System) (args : List String) (check : Bool) (timeout : Option ℕ)
    → Leaves (run system args check timeout)
unfolding run
run-Leaves system args check timeout = record {
  ledger = λ s. ledgers s (system.respond s.history args);
  registry = λ s. registries s (system.respond s.history args);
  manifest = λ s. manifests s (system.respond s.history args);
}
  where
    ledgers :
        (s : State) (o : Option Output) → (answer system args check timeout o s).1.ledger ≡ s.ledger
    ledgers s none = refl
    ledgers s (some out) =
        elim (is_late system s.history args timeout)
          as (λ late. (finish system args check out late s).1.ledger ≡ s.ledger) [
            | true ↦ refl
            | false ↦ refl
          ]

    registries :
        (s : State) (o : Option Output)
        → (answer system args check timeout o s).1.registry ≡ s.registry
    registries s none = refl
    registries s (some out) =
        elim (is_late system s.history args timeout)
          as (λ late. (finish system args check out late s).1.registry ≡ s.registry) [
            | true ↦ refl
            | false ↦ refl
          ]

    manifests :
        (s : State) (o : Option Output)
        → (answer system args check timeout o s).1.manifest ≡ s.manifest
    manifests s none = refl
    manifests s (some out) =
        elim (is_late system s.history args timeout)
          as (λ late. (finish system args check out late s).1.manifest ≡ s.manifest) [
            | true ↦ refl
            | false ↦ refl
          ]

pub ruleset leaves = (
  return-Leaves, lift-Leaves, throw-Leaves, emit-Leaves, throw_if-Leaves, when-Leaves, if-Leaves,
  >>=-Leaves, run-Leaves,
)

-- What holds of the value that is returned and the state behind it.
abbrev pub Returns {ℓ} : {X : Type ℓ} → (X → State → Type 0) → Result X × State → Type 0
Returns Q (ok x, s) = Q x s
Returns Q (err e, s) = Unit

pub >>=-Returns {ℓ κ} :
    {X : Type ℓ} {Y : Type κ} (Q : X → State → Type 0) (R : Y → State → Type 0)
    (r : Result X × State) (next : X → Action Y)
    → Returns Q r
    → ((x : X) (t : State) → Q x t → Returns R (next x t))
    → Returns R (resume next r)
>>=-Returns Q R (ok x, t) next q n = n x t q
>>=-Returns Q R (err e, t) next q n = tt

-- What holds of the two files holds behind a statement that leaves them alone.
pub Leaves-Returns {ℓ κ} :
    {X : Type ℓ} {Y : Type κ} (J : LedgerFile → RegistryFile → Type 0) (R : Y → State → Type 0)
    (first : Action X) (next : X → Action Y) (s : State)
    → Leaves first
    → J s.ledger s.registry
    → ((x : X) (t : State) → J t.ledger t.registry → Returns R (next x t))
    → Returns R (resume next (first s))
Leaves-Returns {X} J R first next s l j n = settle (first s) (l.ledger s) (l.registry s)
  where
    settle :
        (r : Result X × State)
        → r.1.ledger ≡ s.ledger
        → r.1.registry ≡ s.registry
        → Returns R (resume next r)
    settle (ok x, t) p q = n x t (rw (p, q) j)
    settle (err e, t) p q = tt

pub Returns-anything {ℓ} : {X : Type ℓ} (r : Result X × State) → Returns (λ _ _. Unit {0}) r
Returns-anything (ok x, s) = tt
Returns-anything (err e, s) = tt
