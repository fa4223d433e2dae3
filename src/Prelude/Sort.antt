-- ===== src/Prelude/Sort.antt =====
-- `sorted`: a stable sort by a Boolean order, with what the program relies on.
use mathlib.Core.List.{List, [], ◌∷◌, Perm}
use mathlib.Core.List.Perm
use mathlib.Core.Logic.{inl, inr}
use mathlib.Core.Path.{◌≡◌, refl, ◌∙◌}
use mathlib.Core.Bool.{Bool, true, false, ◌||◌}
use native.Mathlib.Omega.{arith}
use derico_sandbox.Prelude.Tests.{Eq, ◌==◌, Bool-cases, if◌then◌else◌}
use derico_sandbox.Prelude.Lists.{contains, IsDistinct, All, All-map_of, select}

module _ {ℓ} {A : Type ℓ} (le : A → A → Bool) where
  unfoldable pub insert_sorted : A → List A → List A
  insert_sorted a [] = a ∷ []
  insert_sorted a (x ∷ xs) =
      let rest = insert_sorted a xs in if le a x then a ∷ x ∷ xs else x ∷ rest

  unfoldable pub sorted : List A → List A
  unfolding insert_sorted
  sorted [] = []
  sorted (x ∷ xs) = insert_sorted x (sorted xs)

  -- Sorted: each value is in order with all that follow it.
  abbrev pub IsSorted : List A → Type 0
  IsSorted [] = Unit
  IsSorted (x ∷ xs) = All (λ y. le x y ≡ true) xs × IsSorted xs

  insert_sorted-All :
      (P : A → Type 0) (a : A) (xs : List A) → P a → All P xs → All P (insert_sorted a xs)
  unfolding insert_sorted
  insert_sorted-All P a [] h k = (h, tt)
  insert_sorted-All P a (x ∷ xs) h k = elim (Bool-cases (le a x)) [
    | inl lt ↦ rw lt (h, k)
    | inr gt ↦ rw gt (k.0, insert_sorted-All P a xs h k.1)
  ]

  pub All-sorted : (P : A → Type 0) (xs : List A) → All P xs → All P (sorted xs)
  unfolding sorted
  All-sorted P [] h = tt
  All-sorted P (x ∷ xs) h = insert_sorted-All P x (sorted xs) h.0 (All-sorted P xs h.1)

  module _ (total : (a b : A) → le a b ≡ false → le b a ≡ true)
      (trans : (a b c : A) → le a b ≡ true → le b c ≡ true → le a c ≡ true) where
    insert_sorted-IsSorted : (a : A) (xs : List A) → IsSorted xs → IsSorted (insert_sorted a xs)
    unfolding insert_sorted
    insert_sorted-IsSorted a [] h = (tt, tt)
    insert_sorted-IsSorted a (x ∷ xs) h = elim (Bool-cases (le a x)) [
      | inl lt ↦ rw lt ((lt, All-map_of _ _ xs (λ y q. trans a x y lt q) h.0), h)
      | inr gt ↦ rw gt (
        insert_sorted-All (λ y. le x y ≡ true) a xs (total a x gt) h.0,
        insert_sorted-IsSorted a xs h.1,
      )
    ]

    pub sorted-IsSorted : (xs : List A) → IsSorted (sorted xs)
    unfolding sorted
    sorted-IsSorted [] = tt
    sorted-IsSorted (x ∷ xs) = insert_sorted-IsSorted x (sorted xs) (sorted-IsSorted xs)

  insert_sorted-perm : (a : A) (xs : List A) → Perm (insert_sorted a xs) (a ∷ xs)
  unfolding insert_sorted
  insert_sorted-perm a [] = Perm.refl (a ∷ [])
  insert_sorted-perm a (x ∷ xs) = elim (Bool-cases (le a x)) [
    | inl lt ↦ rw lt (Perm.refl (a ∷ x ∷ xs))
    | inr gt ↦ rw gt (Perm.trans (Perm.cons x (insert_sorted-perm a xs)) (Perm.swap a x xs))
  ]

  -- Sorting keeps every value as often as it was there.
  sorted-perm : (xs : List A) → Perm (sorted xs) xs
  unfolding sorted
  sorted-perm [] = Perm.refl []
  sorted-perm (x ∷ xs) =
      Perm.trans (insert_sorted-perm x (sorted xs)) (Perm.cons x (sorted-perm xs))

  module _ ⦃e : Eq A⦄ where
    contains-insert_sorted :
        (a b : A) (xs : List A) → contains (insert_sorted a xs) b ≡ (b == a || contains xs b)
    unfolding insert_sorted
    contains-insert_sorted a b [] = refl
    contains-insert_sorted a b (x ∷ xs) = ground (arith, contains-insert_sorted a b xs)

    pub contains-sorted : (xs : List A) (b : A) → contains (sorted xs) b ≡ contains xs b
    unfolding sorted
    contains-sorted [] b = refl
    contains-sorted (x ∷ xs) b =
        ground (arith, contains-insert_sorted x b (sorted xs), contains-sorted xs b)

    insert_sorted-IsDistinct :
        (a : A) (xs : List A)
        → contains xs a ≡ false
        → IsDistinct xs
        → IsDistinct (insert_sorted a xs)
    unfolding insert_sorted
    insert_sorted-IsDistinct a [] h k = (refl, tt)
    insert_sorted-IsDistinct a (x ∷ xs) h k = ground (
      arith,
      insert_sorted-IsDistinct a xs,
      contains-insert_sorted a x xs,
      e.beq_iff a x,
      e.beq_iff x a,
    )

    pub sorted-IsDistinct : (xs : List A) → IsDistinct xs → IsDistinct (sorted xs)
    unfolding sorted
    sorted-IsDistinct [] h = tt
    sorted-IsDistinct (x ∷ xs) h =
        insert_sorted-IsDistinct x (sorted xs) (contains-sorted xs x ∙ h.0)
          (sorted-IsDistinct xs h.1)

  -- The values that a comprehension picks from a sorted list are those of the list.
  module _ {κ} {B : Type κ} ⦃e : Eq B⦄ (p : A → Bool) (f : A → B) where
    contains-select-insert_sorted :
        (a : A) (xs : List A) (b : B)
        → contains (select p f (insert_sorted a xs)) b ≡ contains (select p f (a ∷ xs)) b
    unfolding insert_sorted
    contains-select-insert_sorted a [] b = refl
    contains-select-insert_sorted a (x ∷ xs) b =
        ground (arith, contains-select-insert_sorted a xs b)

    contains-select-sorted :
        (xs : List A) (b : B) → contains (select p f (sorted xs)) b ≡ contains (select p f xs) b
    unfolding sorted
    contains-select-sorted [] b = refl
    contains-select-sorted (x ∷ xs) b =
        ground (arith, contains-select-insert_sorted x (sorted xs) b, contains-select-sorted xs b)

    select-insert_sorted-IsDistinct :
        (a : A) (xs : List A)
        → IsDistinct (select p f (a ∷ xs))
        → IsDistinct (select p f (insert_sorted a xs))
    unfolding insert_sorted
    select-insert_sorted-IsDistinct a [] h = h
    select-insert_sorted-IsDistinct a (x ∷ xs) h = elim (Bool-cases (p a)) [
      | inl pa ↦ elim (Bool-cases (p x)) [
        | inl px ↦ ground (
          arith,
          select-insert_sorted-IsDistinct a xs,
          contains-select-insert_sorted a xs (f x),
          e.beq_iff (f a) (f x),
          e.beq_iff (f x) (f a),
        )
        | inr px ↦ ground (arith, select-insert_sorted-IsDistinct a xs)
      ]
      | inr pa ↦ elim (Bool-cases (p x)) [
        | inl px ↦
            ground (
              arith,
              select-insert_sorted-IsDistinct a xs,
              contains-select-insert_sorted a xs (f x),
            )
        | inr px ↦ ground (arith, select-insert_sorted-IsDistinct a xs)
      ]
    ]

    pub select-sorted-IsDistinct :
        (xs : List A) → IsDistinct (select p f xs) → IsDistinct (select p f (sorted xs))
    unfolding sorted
    select-sorted-IsDistinct [] h = tt
    select-sorted-IsDistinct (x ∷ xs) h =
        select-insert_sorted-IsDistinct x (sorted xs)
          (ground (arith, select-sorted-IsDistinct xs, contains-select-sorted xs (f x)))
