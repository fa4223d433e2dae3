-- ===== src/System/Outcomes.antt =====
-- Rules for what a statement establishes: an invariant of the history however it ends, and a property of
-- what it returns.
use derico_sandbox.Errors.{Result, command_error, err, ok, Error}
use derico_sandbox.Prelude.{
  Bool, List, Option, String, false, if◌then◌else◌, none, refl, some, true, ℕ, ◌&&◌, ◌∷◌, ◌≡◌,
}
use derico_sandbox.System.{
  Action, Event, Output, State, System, answer, exited, expired, failed, finish, is_late, push, ran,
  resume, run, Reply, recover,
}
use derico_sandbox.System.Effects.{Only}

abbrev pub Outcome {ℓ} :
    {X : Type ℓ} → (List Event → Type 0) → (X → List Event → Type 0) → Result X × State → Type 0
Outcome I Q (ok x, s) = I s.history × Q x s.history
Outcome I Q (err raised, s) = I s.history

-- Events that pass the test keep the invariant.
abbrev pub Closed : (Event → Bool) → (List Event → Type 0) → Type 0
Closed test I = (h : List Event) (event : Event) → test event ≡ true → I h → I (event ∷ h)

abbrev pub Anything {ℓ} : {X : Type ℓ} → X → List Event → Type 0
Anything x h = Unit

pub >>=-Outcome {ℓ κ} :
    {X : Type ℓ} {Y : Type κ} (I : List Event → Type 0) (Q : X → List Event → Type 0)
    (R : Y → List Event → Type 0) (r : Result X × State) (next : X → Action Y)
    → Outcome I Q r
    → ((x : X) (t : State) → I t.history → Q x t.history → Outcome I R (next x t))
    → Outcome I R (resume next r)
>>=-Outcome I Q R (ok x, t) next o n = n x t o.0 o.1
>>=-Outcome I Q R (err e, t) next o n = o

-- A first statement of events that pass the test.
pub Only-Outcome {ℓ κ} :
    {X : Type ℓ} {Y : Type κ} (test : Event → Bool) (I : List Event → Type 0)
    (R : Y → List Event → Type 0) (first : Action X) (next : X → Action Y) (s : State)
    → Only test first
    → Closed test I
    → I s.history
    → ((x : X) (t : State) → I t.history → Outcome I R (next x t))
    → Outcome I R (resume next (first s))
Only-Outcome {X} {Y} test I R first next s only closed i n =
    settle (first s) (only.keeps I closed s i)
  where
    settle : (r : Result X × State) → I r.1.history → Outcome I R (resume next r)
    settle (ok x, t) j = n x t j
    settle (err e, t) j = j

-- A last one.
pub Only-last {ℓ} :
    {X : Type ℓ} (test : Event → Bool) (I : List Event → Type 0) (act : Action X) (s : State)
    → Only test act
    → Closed test I
    → I s.history
    → Outcome I Anything (act s)
Only-last {X} test I act s only closed i = settle (act s) (only.keeps I closed s i)
  where
    settle : (r : Result X × State) → I r.1.history → Outcome I Anything r
    settle (ok x, t) j = (j, tt)
    settle (err e, t) j = j

pub Outcome-weaken {ℓ} :
    {X : Type ℓ} (I J : List Event → Type 0) (Q R : X → List Event → Type 0) (r : Result X × State)
    → ((h : List Event) → I h → J h)
    → ((x : X) (h : List Event) → I h → Q x h → R x h)
    → Outcome I Q r
    → Outcome J R r
Outcome-weaken I J Q R (ok x, t) f g o = (f t.history o.0, g x t.history o.0 o.1)
Outcome-weaken I J Q R (err e, t) f g o = f t.history o

-- A command: the invariant holds behind each reply, and the property where the output is returned.
pub run-Outcome :
    (system : System) (args : List String) (check : Bool) (timeout : Option ℕ) (s : State)
    (I : List Event → Type 0) (Q : Output → List Event → Type 0)
    → I s.history
    → ((reply : Reply) → I (ran args reply ∷ s.history))
    → ((out : Output) → (check && failed out) ≡ false → Q out (ran args (exited out) ∷ s.history))
    → Outcome I Q (run system args check timeout s)
unfolding run
run-Outcome system args check timeout s I Q i r q = answered (system.respond s.history args)
  where
    checked :
        (out : Output) (bad : Bool) (f : (check && failed out) ≡ bad)
        → Outcome I Q (
          if bad then err (command_error args out.returncode out.stderr) else ok out,
          push (ran args (exited out)) s,
        )
    checked out true f = r (exited out)
    checked out false f = (r (exited out), q out f)

    answered : (o : Option Output) → Outcome I Q (answer system args check timeout o s)
    answered none = i
    answered (some out) =
        elim (is_late system s.history args timeout)
          as (λ late. Outcome I Q (finish system args check out late s)) [
            | true ↦ r expired
            | false ↦ checked out (check && failed out) refl
          ]

pub attempt-Outcome {ℓ} :
    {X : Type ℓ} (I : List Event → Type 0) (Q : X → List Event → Type 0) (r : Result X × State)
    (handler : Error → Action X)
    → Outcome I Q r
    → ((e : Error) (t : State) → I t.history → Outcome I Q (handler e t))
    → Outcome I Q (recover handler r)
attempt-Outcome I Q (ok x, t) handler o h = o
attempt-Outcome I Q (err e, t) handler o h = h e t o

pub Outcome-invariant {ℓ} :
    {X : Type ℓ} (I : List Event → Type 0) (Q : X → List Event → Type 0) (r : Result X × State)
    → Outcome I Q r
    → I r.1.history
Outcome-invariant I Q (ok x, t) o = o.0
Outcome-invariant I Q (err e, t) o = o

-- A first statement that keeps more than is asked of the rest.
pub Only-strong {ℓ κ} :
    {X : Type ℓ} {Y : Type κ} (test : Event → Bool) (J I : List Event → Type 0)
    (R : Y → List Event → Type 0) (first : Action X) (next : X → Action Y) (s : State)
    → Only test first
    → Closed test J
    → ((h : List Event) → J h → I h)
    → J s.history
    → ((x : X) (t : State) → J t.history → Outcome I R (next x t))
    → Outcome I R (resume next (first s))
Only-strong {X} {Y} test J I R first next s only closed weaken j n =
    settle (first s) (only.keeps J closed s j)
  where
    settle : (r : Result X × State) → J r.1.history → Outcome I R (resume next r)
    settle (ok x, t) k = n x t k
    settle (err e, t) k = weaken t.history k

pub invariant_Outcome {ℓ} :
    {X : Type ℓ} (I : List Event → Type 0) (r : Result X × State)
    → I r.1.history
    → Outcome I Anything r
invariant_Outcome I (ok x, t) i = (i, tt)
invariant_Outcome I (err e, t) i = i
