-- ===== src/Incus/Guest/Waiting.antt =====
-- The wait loop ends, given a clock that does not go back and that a sleep moves on.
use derico_sandbox.Incus.Client.{incus_argv}
use derico_sandbox.Errors.{
  Error, Result, command_timeout, crash, err, file_not_found, incus_error, ok, wait_timed_out,
}
use derico_sandbox.Incus.Guest.{
  guest_probe, not_yet, pause, in_guest, wait_loop, wait_for_guest_command,
}
use derico_sandbox.Prelude.{
  Bool, List, String, arith, false, refl, true, ℕ, ◌+◌, ◌∷◌, ◌≡◌, ◌≤◌, ◌⊎◌, Option, none, not, some,
  suc, zero, ◌-◌, ◌<>◌, ◌<◌, Bool-cases, if◌then◌else◌, inl, inr, leb,
}
use Prim.Native.Nat.{min}
use derico_sandbox.System.{
  Action, Event, Output, State, System, answer, clock_read, echoed, failed, finish, is_late, now,
  push, recover, resume, return, run, slept, ◌>>◌,
}
use derico_sandbox.System.Effects.{Only, effects}

-- What `time` documents of `monotonic` and `sleep`.
pub record Steady (system : System) : Type 0 where
  pub forward : (h : List Event) (e : Event) → system.monotonic h ≤ system.monotonic (e ∷ h)
  pub passes : (h : List Event) (d : ℕ) → system.monotonic h + d ≤ system.monotonic (slept d ∷ h)

-- How the loop may end.
abbrev pub Ends : String → Result (Unit {0}) → Type 0
Ends description (ok x) = Unit
Ends description (err e) =
    (e ≡ incus_error (wait_timed_out description)) ⊎ (e ≡ crash file_not_found)

-- How a probe may end.
abbrev Answers : Result Bool → Type 0
Answers (ok x) = Unit
Answers (err e) = e ≡ crash file_not_found

module _ (system : System) (steady : Steady system) where
  open steady use {forward, passes}

  -- No statement turns the clock back.
  later {ℓ} :
      {X : Type ℓ} (act : Action X) (s : State)
      → Only (λ e. true) act
      → system.monotonic s.history ≤ system.monotonic (act s).1.history
  later act s only =
      only.keeps (λ h. system.monotonic s.history ≤ system.monotonic h)
        (λ h e _ m. omega (arith, forward h e)) s (omega arith)

  not_yet-true : (raised : Error) → Only (λ e. true) (not_yet system raised)
  not_yet-true (command_timeout args) = search effects
  not_yet-true raised = search effects

  probe-Only :
      (instance_ : String) (args : List String) (remaining : ℕ)
      → Only (λ e. true) (guest_probe system instance_ args remaining)
  unfolding guest_probe
  probe-Only instance_ args remaining = search (effects, not_yet-true)

  probe-Answers :
      (instance_ : String) (args : List String) (remaining : ℕ) (s : State)
      → Answers (guest_probe system instance_ args remaining s).0
  unfolding guest_probe run
  probe-Answers instance_ args remaining s =
      answered (system.respond s.history (incus_argv system (in_guest instance_ args)))
    where
      answered :
          (o : Option Output)
          → Answers
              (recover (not_yet system) (
                resume
                  (λ r. return (not (failed r)))
                  (answer system
                    (incus_argv system (in_guest instance_ args))
                    false
                    (some (min 10000 remaining))
                    o
                    s))).0
      answered none = refl
      answered (some out) =
          elim (is_late system s.history (incus_argv system (in_guest instance_ args))
              (some (min 10000 remaining)))
            as (λ late.
              Answers
                (recover (not_yet system) (
                  resume (λ r. return (not (failed r)))
                    (finish system (incus_argv system (in_guest instance_ args)) false out late
                      s))).0) [ true ↦ tt | false ↦ tt ]

  pause-later :
      (deadline : ℕ) (description : String) (waiting : Bool) (s : State)
      → min deadline (system.monotonic s.history + 1)
        ≤ system.monotonic (pause system deadline description waiting s).1.history
  unfolding pause now
  pause-later deadline description true s =
      let h = clock_read ∷ s.history in
      let d = min 2000 (deadline - system.monotonic h) in
      ground (arith, forward s.history clock_read, passes h d)
  pause-later deadline description false s =
      let told = echoed ("Waiting for " <> description <> "...") ∷ s.history in
      let h = clock_read ∷ told in
      let d = min 2000 (deadline - system.monotonic h) in
      ground (
        arith,
        forward s.history (echoed ("Waiting for " <> description <> "...")),
        forward told clock_read,
        passes h d,
      )

  pause-ok :
      (deadline : ℕ) (description : String) (waiting : Bool) (s : State)
      → (pause system deadline description waiting s).0 ≡ ok tt
  unfolding pause now
  pause-ok deadline description true s = refl
  pause-ok deadline description false s = refl

  module _ (fuel : ℕ) (deadline : ℕ) (description : String) (loop : Action (Unit {0}))
      (ends : (s : State)
        → deadline - system.monotonic s.history < fuel
        → Ends description (loop s).0) where
    -- The next round starts later, or behind the deadline.
    next_round :
        (m : ℕ) (r : Result (Unit {0}) × State)
        → deadline - m < suc fuel
        → m < deadline
        → r.0 ≡ ok tt
        → min deadline (m + 1) ≤ system.monotonic r.1.history
        → Ends description (resume (λ _. loop) r).0
    next_round m (ok x, t) f l o p = ends t (ground arith)
    next_round m (err e, t) f l o p = absurd (cc)

    -- Behind a probe.
    round :
        (waiting : Bool) (t : ℕ) (r : Result Bool × State)
        → deadline - t < suc fuel
        → t < deadline
        → Answers r.0
        → t ≤ system.monotonic r.1.history
        → Ends description
            (resume
              (λ answered.
                if answered then return tt else (pause system deadline description waiting >> loop))
              r).0
    round waiting t (err e, u) f l a m = inr a
    round waiting t (ok true, u) f l a m = tt
    round waiting t (ok false, u) f l a m =
        next_round t (pause system deadline description waiting u) f l
          (pause-ok deadline description waiting u)
          (ground (arith, pause-later deadline description waiting u))

  wait_loop-Ends :
      (fuel : ℕ) (instance_ : String) (args : List String) (deadline : ℕ) (description : String)
      (waiting : Bool) (s : State)
      → deadline - system.monotonic s.history < fuel
      → Ends description (wait_loop system fuel instance_ args deadline description waiting s).0
  unfolding wait_loop now
  wait_loop-Ends zero instance_ args deadline description waiting s m = absurd (omega arith)
  wait_loop-Ends (suc fuel) instance_ args deadline description waiting s m =
      let t = system.monotonic (clock_read ∷ s.history) in
      let started = forward s.history clock_read in
      let probe = guest_probe system instance_ args (deadline - t) in
      let again = wait_loop system fuel instance_ args deadline description true in
      elim (Bool-cases (leb deadline t)) [
        | inl late ↦ rw late (inl refl)
        | inr early ↦ rw early (
            round fuel deadline description again
              (λ v f. wait_loop-Ends fuel instance_ args deadline description true v f) waiting t
              (probe (push clock_read s)) (omega arith) (ground (arith, early))
              (probe-Answers instance_ args (deadline - t) (push clock_read s))
              (later probe (push clock_read s) (probe-Only instance_ args (deadline - t))))
      ]

  -- With a clock that moves, `_wait_for_guest_command` ends, for every timeout and whatever the guest
  -- answers, within as many rounds as the timeout has milliseconds: it returns, or it raises the timeout's
  -- error, or the `incus` program is not found.
  pub wait_for_guest_command-Ends :
      (instance_ : String) (args : List String) (timeout : ℕ) (description : String) (s : State)
      → Ends description
          (wait_for_guest_command system (suc timeout) instance_ args timeout description s).0
  unfolding wait_for_guest_command now
  wait_for_guest_command-Ends instance_ args timeout description s =
      let start = system.monotonic (clock_read ∷ s.history) in
      wait_loop-Ends (suc timeout) instance_ args (start + timeout) description false
        (push clock_read s) (omega arith)
