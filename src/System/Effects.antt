-- ===== src/System/Effects.antt =====
-- Rules for statements over the history: what a statement keeps, whatever commands answer.
use derico_sandbox.Prelude.{
  ℕ, String, List, Bool, true, false, ◌≡◌, refl, Option, none, some, ◌∷◌, if◌then◌else◌,
}
use derico_sandbox.Errors.{Error, Result, err, ok}
use derico_sandbox.System.{
  Action, Event, Output, State, System, attempt, emit, lift, ran, return, run, throw, throw_if,
  when, now, clock_read, ◌>>=◌, is_late, expired, exited, Reply, finish, recover, resume, answer,
}

-- The statement does nothing but events that pass the test: it keeps what each of these keeps.
pub record Only {ℓ} (test : Event → Bool) {X : Type ℓ} (act : Action X) : Type 1 where
  pub keeps :
      (I : List Event → Type 0)
      → ((h : List Event) (event : Event) → test event ≡ true → I h → I (event ∷ h))
      → (s : State) → I s.history
      → I (act s).1.history

module _ (test : Event → Bool) where
  module _ {ℓ} {X : Type ℓ} where
    pub return-Only : (x : X) → Only test (return x)
    return-Only x = record { keeps = λ I step s i. i }

    pub lift-Only : (r : Result X) → Only test (lift r)
    lift-Only r = record { keeps = λ I step s i. i }

    pub attempt-Only :
        (body : Action X) (handler : Error → Action X)
        → Only test body
        → ((e : Error) → Only test (handler e))
        → Only test (attempt body handler)
    attempt-Only body handler b h = record {
      keeps = λ I step s i. settle I step (body s) (b.keeps I step s i);
    }
      where
        settle :
            (I : List Event → Type 0)
            → ((h : List Event) (event : Event) → test event ≡ true → I h → I (event ∷ h))
            → (r : Result X × State) → I r.1.history
            → I (recover handler r).1.history
        settle I step (ok x, t) j = j
        settle I step (err e, t) j = (h e).keeps I step t j

  pub throw-Only {ℓ} : (X : Type ℓ) (e : Error) → Only test {X = X} (throw e)
  throw-Only X e = record { keeps = λ I step s i. i }

  pub >>=-Only {ℓ κ} :
      {X : Type ℓ} {Y : Type κ} (first : Action X) (next : X → Action Y)
      → Only test first
      → ((x : X) → Only test (next x))
      → Only test (first >>= next)
  >>=-Only {X} first next f n = record {
    keeps = λ I step s i. settle I step (first s) (f.keeps I step s i);
  }
    where
      settle :
          (I : List Event → Type 0)
          → ((h : List Event) (event : Event) → test event ≡ true → I h → I (event ∷ h))
          → (r : Result X × State) → I r.1.history
          → I (resume next r).1.history
      settle I step (ok x, t) j = (n x).keeps I step t j
      settle I step (err e, t) j = j

  pub throw_if-Only : (b : Bool) (e : Error) → Only test (throw_if b e)
  throw_if-Only true e = record { keeps = λ I step s i. i }
  throw_if-Only false e = record { keeps = λ I step s i. i }

  pub when-Only : (b : Bool) (body : Action (Unit {0})) → Only test body → Only test (when b body)
  when-Only true body only = only
  when-Only false body only = return-Only tt

  pub if-Only {ℓ} :
      {X : Type ℓ} (b : Bool) (x y : Action X)
      → Only test x
      → Only test y
      → Only test (if b then x else y)
  if-Only true x y p q = p
  if-Only false x y p q = q

  pub emit-Only : (event : Event) → test event ≡ true → Only test (emit event)
  emit-Only event passes = record { keeps = λ I step s i. step s.history event passes i }

  pub run-Only :
      (system : System) (args : List String) (check : Bool) (timeout : Option ℕ)
      → ((reply : Reply) → test (ran args reply) ≡ true)
      → Only test (run system args check timeout)
  unfolding run
  run-Only system args check timeout passes = record {
    keeps = λ I step s i. answered I step s i (system.respond s.history args);
  }
    where
      answered :
          (I : List Event → Type 0)
          → ((h : List Event) (event : Event) → test event ≡ true → I h → I (event ∷ h))
          → (s : State) → I s.history
          → (o : Option Output) → I (answer system args check timeout o s).1.history
      answered I step s i none = i
      answered I step s i (some out) =
          elim (is_late system s.history args timeout)
            as (λ late. I (finish system args check out late s).1.history) [
              | true ↦ step s.history (ran args expired) (passes expired) i
              | false ↦ step s.history (ran args (exited out)) (passes (exited out)) i
            ]

  pub now-Only : (system : System) → test clock_read ≡ true → Only test (now system)
  unfolding now
  now-Only system passes = record { keeps = λ I step s i. step s.history clock_read passes i }

pub ruleset effects = (
  return-Only, lift-Only, throw-Only, attempt-Only, >>=-Only, throw_if-Only, when-Only, if-Only,
  emit-Only, run-Only, now-Only, refl,
)
