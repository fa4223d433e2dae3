-- ===== src/Prelude/Lists.antt =====
-- Lists: lengths and positions over the native numbers, Boolean searches, and `All`.
use Prim.Native.Nat.{ℕ, zero, suc, ◌≤◌}
use mathlib.Core.Path.{◌≡◌, refl, sym, ap, ◌∙◌, subst}
use mathlib.Core.Logic.{inl, inr, ◌↔◌}
use mathlib.Core.Bool.{Bool, true, false, ◌&&◌, ◌||◌, false≢true}
use mathlib.Core.List.{List, [], ◌∷◌, ◌++◌}
use mathlib.Core.Option.{Option, none, some}
use native.Mathlib.Omega.{arith}
use derico_sandbox.Prelude.Tests.{Eq, ◌==◌, Bool-cases, if◌then◌else◌}

module _ {ℓ} {A : Type ℓ} where
  abbrev pub length : List A → ℕ
  length [] = 0
  length (x ∷ xs) = suc (length xs)

  abbrev pub get_elem? : List A → ℕ → Option A
  get_elem? [] i = none
  get_elem? (x ∷ xs) zero = some x
  get_elem? (x ∷ xs) (suc i) = get_elem? xs i

  abbrev pub take : ℕ → List A → List A
  take zero xs = []
  take (suc n) [] = []
  take (suc n) (x ∷ xs) = x ∷ take n xs

  abbrev pub drop : ℕ → List A → List A
  drop zero xs = xs
  drop (suc n) [] = []
  drop (suc n) (x ∷ xs) = drop n xs

  abbrev pub is_empty : List A → Bool
  is_empty [] = true
  is_empty (x ∷ xs) = false

  pub is_empty_nil : (xs : List A) → is_empty xs ≡ true → xs ≡ []
  is_empty_nil [] h = refl
  is_empty_nil (x ∷ xs) h = cc

  abbrev pub any : (A → Bool) → List A → Bool
  any p [] = false
  any p (x ∷ xs) = p x || any p xs

  pub any-append : (p : A → Bool) (xs ys : List A) → any p (xs ++ ys) ≡ (any p xs || any p ys)
  any-append p [] ys = refl
  any-append p (x ∷ xs) ys = ground (arith, any-append p xs ys)

  abbrev pub all : (A → Bool) → List A → Bool
  all p [] = true
  all p (x ∷ xs) = p x && all p xs

  abbrev pub filter : (A → Bool) → List A → List A
  filter p [] = []
  filter p (x ∷ xs) = let rest = filter p xs in if p x then x ∷ rest else rest

  -- `[f(x) for x in xs if p(x)]`
  abbrev pub select {κ} : {B : Type κ} → (A → Bool) → (A → B) → List A → List B
  select p f [] = []
  select p f (x ∷ xs) = let rest = select p f xs in if p x then f x ∷ rest else rest

  -- `next((x for x in xs if p(x)), None)`
  abbrev pub find? : (A → Bool) → List A → Option A
  find? p [] = none
  find? p (x ∷ xs) = let rest = find? p xs in if p x then some x else rest

  abbrev pub All {κ} : (A → Type κ) → List A → Type κ
  All P [] = Unit
  All P (x ∷ xs) = P x × All P xs

  pub All-append {κ} : (P : A → Type κ) (xs ys : List A) → All P xs → All P ys → All P (xs ++ ys)
  All-append P [] ys h k = k
  All-append P (x ∷ xs) ys h k = (h.0, All-append P xs ys h.1 k)

  pub All-unappend {κ} : (P : A → Type κ) (xs ys : List A) → All P (xs ++ ys) → All P xs × All P ys
  All-unappend P [] ys h = (tt, h)
  All-unappend P (x ∷ xs) ys h =
      let (left, right) = All-unappend P xs ys h.1 in ((h.0, left), right)

  pub All-map_of {κ μ} :
      (P : A → Type κ) (Q : A → Type μ) (xs : List A) → ((x : A) → P x → Q x) → All P xs → All Q xs
  All-map_of P Q [] f h = tt
  All-map_of P Q (x ∷ xs) f h = (f x h.0, All-map_of P Q xs f h.1)

module _ {ℓ} {A : Type ℓ} ⦃e : Eq A⦄ where
  abbrev pub contains : List A → A → Bool
  contains [] a = false
  contains (x ∷ xs) a = a == x || contains xs a

  -- No value is listed twice.
  abbrev pub IsDistinct : List A → Type 0
  IsDistinct [] = Unit
  IsDistinct (x ∷ xs) = (contains xs x ≡ false) × IsDistinct xs

  -- A set, as the list of its members in the order of their first insertion.
  abbrev pub insert : A → List A → List A
  insert a xs = if contains xs a then xs else xs ++ a ∷ []

  pub contains-append :
      (xs ys : List A) (a : A) → contains (xs ++ ys) a ≡ (contains xs a || contains ys a)
  contains-append [] ys a = refl
  contains-append (x ∷ xs) ys a = ground (arith, contains-append xs ys a)

  pub All-at {κ} : (P : A → Type κ) (xs : List A) (a : A) → All P xs → contains xs a ≡ true → P a
  All-at P [] a h m = absurd (false≢true m)
  All-at P (x ∷ xs) a h m = elim (Bool-cases (a == x)) [
    | inl here ↦ subst P (sym ((e.beq_iff a x).0 here)) h.0
    | inr there ↦ All-at P xs a h.1 (rw there at m)
  ]

  pub contains-insert :
      (a b : A) (xs : List A) → contains (insert a xs) b ≡ (b == a || contains xs b)
  contains-insert a b xs = elim (Bool-cases (contains xs a)) [
    | inl old ↦ rw (old) (ground (arith, e.beq_iff b a, same_contains a b xs old))
    | inr new ↦ rw (new, contains-append) (ground arith)
  ]
    where
      same_contains :
          (a b : A) (xs : List A) → contains xs a ≡ true → (b == a) ≡ true → contains xs b ≡ true
      same_contains a b xs m q = rw ((e.beq_iff b a).0 q) m

  pub insert-IsDistinct : (a : A) (xs : List A) → IsDistinct xs → IsDistinct (insert a xs)
  insert-IsDistinct a xs h = elim (Bool-cases (contains xs a)) [
    | inl old ↦ rw old h
    | inr new ↦ rw new (snoc-IsDistinct a xs h new)
  ]
    where
      snoc-IsDistinct :
          (a : A) (xs : List A) → IsDistinct xs → contains xs a ≡ false → IsDistinct (xs ++ a ∷ [])
      snoc-IsDistinct a [] h m = (refl, tt)
      snoc-IsDistinct a (x ∷ xs) h m = (
        rw (contains-append xs (a ∷ []) x) (ground (arith, e.beq_iff a x, e.beq_iff x a)),
        ground (arith, snoc-IsDistinct a xs h.1),
      )

  -- No value of the second list is in the first.
  abbrev pub IsFresh : List A → List A → Type 0
  IsFresh seen = All (λ n. contains seen n ≡ false)

  pub IsFresh-cons :
      (n : A) (seen ns : List A)
      → IsFresh (n ∷ seen) ns ↔ (IsFresh seen ns × (contains ns n ≡ false))
  IsFresh-cons n seen [] = (λ h. (tt, refl), λ h. tt)
  IsFresh-cons n seen (k ∷ ns) = (
    λ h. ground (arith, (IsFresh-cons n seen ns).0 h.1, e.beq_iff n k, e.beq_iff k n),
    λ h. (
      ground (arith, e.beq_iff n k, e.beq_iff k n),
      (IsFresh-cons n seen ns).1 (h.0.1, ground arith),
    ),
  )

module _ {ℓ} {A : Type ℓ} where
  -- `xs[0]` of a list that starts with `xs` and has `a` behind it
  abbrev pub head_or : A → List A → A
  head_or a [] = a
  head_or a (x ∷ xs) = x

  -- `xs[:-1]` and `xs[-1]` of a list that is not empty
  abbrev pub init_of : A → List A → List A
  init_of x [] = []
  init_of x (y ∷ ys) = x ∷ init_of y ys

  abbrev pub last_of : A → List A → A
  last_of x [] = x
  last_of x (y ∷ ys) = last_of y ys

  pub append-init-last : (x : A) (xs : List A) → init_of x xs ++ last_of x xs ∷ [] ≡ x ∷ xs
  append-init-last x [] = refl
  append-init-last x (y ∷ ys) = ap (x ∷◌) (append-init-last y ys)

module _ {ℓ} {A : Type ℓ} ⦃e : Eq A⦄ where
  -- `set(xs)`
  unfoldable pub distinct : List A → List A
  distinct [] = []
  distinct (x ∷ xs) = insert x (distinct xs)

  contains-distinct : (xs : List A) (a : A) → contains (distinct xs) a ≡ contains xs a
  unfolding distinct
  contains-distinct [] a = refl
  contains-distinct (x ∷ xs) a =
      contains-insert x a (distinct xs) ∙ ap (λ b. a == x || b) (contains-distinct xs a)

  length-snoc : (xs : List A) (a : A) → length (xs ++ a ∷ []) ≡ suc (length xs)
  length-snoc [] a = refl
  length-snoc (x ∷ xs) a = ap suc (length-snoc xs a)

  length-distinct : (xs : List A) → length (distinct xs) ≤ length xs
  unfolding distinct
  length-distinct [] = omega arith
  length-distinct (x ∷ xs) = ground (arith, length-distinct xs, length-snoc (distinct xs) x)

  -- A list that is as long as the set of its members has no member twice.
  pub length-distinct-IsDistinct : (xs : List A) → length (distinct xs) ≡ length xs → IsDistinct xs
  unfolding distinct
  length-distinct-IsDistinct [] h = tt
  length-distinct-IsDistinct (x ∷ xs) h = elim (Bool-cases (contains xs x)) [
    | inl old ↦ absurd (ground (arith, contains-distinct xs x, length-distinct xs))
    | inr new ↦ (
      new,
      length-distinct-IsDistinct xs
          (ground (arith, contains-distinct xs x, length-snoc (distinct xs) x)),
    )
  ]
