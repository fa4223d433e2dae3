-- ===== src/Config/Mounts/Targets.antt =====
-- The loop that names the guest directory of a mount ends on a name that no other mount has.
use derico_sandbox.Prelude.Decimal.{show, show_injective}
use derico_sandbox.Config.Mounts.{candidate, free_target}
use derico_sandbox.Prelude.{
  Bool-cases, List, String, [], arith, contains, eq_iff, false, filter, if◌then◌else◌, inl, inr,
  length, nat_Eq, not, refl, string_Eq, suc, true, zero, ℕ, ◌<◌, ◌==◌, ◌∷◌, ◌≡◌, ◌≤◌, ap, sym, ◌+◌,
  ◌<>◌, ◌≢◌,
}
use text.Mathlib.TextLemmas.{append_cancel_left, length-append}
use Prim.Native.String.{count}

-- No text is itself with a suffix behind it.
no_suffix : (base : String) (k : ℕ) → base ≢ base <> "-" <> show k
no_suffix base k h =
    absurd
      (omega (arith, ap count h, length-append base ("-" <> show k), length-append "-" (show k)))

candidate_injective : (base : String) (i j : ℕ) → candidate base i ≡ candidate base j → i ≡ j
unfolding candidate
candidate_injective base zero zero h = refl
candidate_injective base zero (suc j) h =
    absurd (no_suffix base (j + 2) (append_cancel_left "/workspaces/" _ _ h))
candidate_injective base (suc i) zero h =
    absurd (no_suffix base (i + 2) (append_cancel_left "/workspaces/" _ _ (sym h)))
candidate_injective base (suc i) (suc j) h =
    let tails = append_cancel_left base _ _ (append_cancel_left "/workspaces/" _ _ h) in
    omega (arith, show_injective (i + 2) (j + 2) (append_cancel_left "-" _ _ tails))

without : String → List String → List String
without a = filter (λ x. not (a == x))

contains-without :
    (a b : String) (xs : List String)
    → contains (without a xs) b ≡ (if a == b then false else contains xs b)
unfolding without
contains-without a b [] = ground arith
contains-without a b (x ∷ xs) =
    ground (arith, contains-without a b xs, eq_iff a b, eq_iff a x, eq_iff b x)

length-without-le : (a : String) (xs : List String) → length (without a xs) ≤ length xs
unfolding without
length-without-le a [] = omega arith
length-without-le a (x ∷ xs) = ground (arith, length-without-le a xs)

length-without-lt :
    (a : String) (xs : List String) → contains xs a ≡ true → length (without a xs) < length xs
unfolding without
length-without-lt a [] h = cc
length-without-lt a (x ∷ xs) h = ground (arith, length-without-lt a xs, length-without-le a xs)

-- The loop sees of the targets in use only whether they hold later candidates.
free_target_congr :
    (base : String) (u v : List String) (k fuel : ℕ)
    → ((j : ℕ) → k ≤ j → contains u (candidate base j) ≡ contains v (candidate base j))
    → free_target base u k fuel ≡ free_target base v k fuel
unfolding free_target
free_target_congr base u v k zero h = refl
free_target_congr base u v k (suc fuel) h =
    ground (arith, h k, free_target_congr base u v (suc k) fuel (λ j q. h j (omega arith)))

free_target-candidate :
    (base : String) (used : List String) (k fuel : ℕ)
    → (j : ℕ) × (k ≤ j) × (free_target base used k fuel ≡ candidate base j)
unfolding free_target
free_target-candidate base used k zero = (k, omega arith, refl)
free_target-candidate base used k (suc fuel) =
    elim (Bool-cases (contains used (candidate base k))) [
      | inl taken ↦
          let (j, le, q) = free_target-candidate base used (suc k) fuel in
          (j, omega arith, rw taken q)
      | inr free ↦ (k, omega arith, rw free)
    ]

-- Past a candidate that is taken, it makes no difference that it is.
later :
    (base : String) (k fuel : ℕ) (used : List String)
    → free_target base used (suc k) fuel
      ≡ free_target base (without (candidate base k) used) (suc k) fuel
later base k fuel used = free_target_congr base used _ (suc k) fuel λ j le. ground (
  arith,
  contains-without (candidate base k) (candidate base j) used,
  eq_iff (candidate base k) (candidate base j),
  candidate_injective base k j,
)

free_target_from :
    (base : String) (fuel k : ℕ) (used : List String)
    → length used ≤ fuel
    → contains used (free_target base used k fuel) ≡ false
unfolding free_target
free_target_from base zero k [] h = refl
free_target_from base zero k (x ∷ used) h = absurd (omega arith)
free_target_from base (suc fuel) k used h = elim (Bool-cases (contains used (candidate base k))) [
  | inl taken ↦
      let rest = without (candidate base k) used in
      let (j, le, at_j) = free_target-candidate base rest (suc k) fuel in
      let fresh =
        free_target_from base fuel (suc k) rest
          (omega (arith, length-without-lt (candidate base k) used taken)) in
      rw taken (
        rw (later base k fuel used) (
          ground (
            arith,
            fresh,
            at_j,
            contains-without (candidate base k) (candidate base j) used,
            eq_iff (candidate base k) (candidate base j),
            candidate_injective base k j,
          )))
  | inr free ↦ rw free free
]

-- With as much fuel as there are targets in use, the loop ends on a target that is free.
pub free_target_lem :
    (base : String) (used : List String)
    → contains used (free_target base used 0 (length used)) ≡ false
free_target_lem base used = free_target_from base (length used) 0 used (omega arith)
