-- ===== src/Prelude/Dict.antt =====
-- Python's `dict`: an association list in insertion order. A new key goes to the end, an old one
-- keeps its place.
use mathlib.Core.List.{List, [], ◌∷◌, map}
use mathlib.Core.Path.{◌≡◌}
use mathlib.Core.Bool.{true}
use mathlib.Core.Option.{Option, none, some}
use native.Mathlib.Omega.{arith}
use derico_sandbox.Prelude.Tests.{Eq, ◌==◌, if◌then◌else◌}
use derico_sandbox.Prelude.Lists.{contains, IsDistinct}

abbrev pub Dict {ℓ κ} : Type ℓ → Type κ → Type (ℓ ⊔ κ)
Dict K V = List (K × V)

module _ {ℓ κ} {K : Type ℓ} {V : Type κ} where
  abbrev pub keys : Dict K V → List K
  keys = map (λ e. e.0)

  abbrev pub values : Dict K V → List V
  values = map (λ e. e.1)

module _ {ℓ κ} {K : Type ℓ} {V : Type κ} ⦃e : Eq K⦄ where
  -- `d.get(k)`
  unfoldable pub get : Dict K V → K → Option V
  get [] k = none
  get ((j, v) ∷ d) k = let rest = get d k in if k == j then some v else rest

  -- `d[k] = v`
  unfoldable pub put : Dict K V → K → V → Dict K V
  put [] k v = (k, v) ∷ []
  put ((j, w) ∷ d) k v = let rest = put d k v in if k == j then (j, v) ∷ d else (j, w) ∷ rest

  -- `d.pop(k, None)`, `del d[k]`
  unfoldable pub remove : Dict K V → K → Dict K V
  remove [] k = []
  remove ((j, w) ∷ d) k = let rest = remove d k in if k == j then rest else (j, w) ∷ rest

  pub get-put :
      (d : Dict K V) (k j : K) (v : V) → get (put d k v) j ≡ (if j == k then some v else get d j)
  unfolding get put
  get-put [] k j v = ground arith
  get-put ((i, w) ∷ d) k j v =
      ground (arith, get-put d k j v, e.beq_iff k i, e.beq_iff j i, e.beq_iff j k)

  pub get-remove :
      (d : Dict K V) (k j : K) → get (remove d k) j ≡ (if j == k then none else get d j)
  unfolding get remove
  get-remove [] k j = ground arith
  get-remove ((i, w) ∷ d) k j =
      ground (arith, get-remove d k j, e.beq_iff k i, e.beq_iff j i, e.beq_iff j k)

  pub contains-keys-put :
      (d : Dict K V) (k j : K) (v : V)
      → contains (keys (put d k v)) j ≡ (if j == k then true else contains (keys d) j)
  unfolding put
  contains-keys-put [] k j v = ground arith
  contains-keys-put ((i, w) ∷ d) k j v =
      ground (arith, contains-keys-put d k j v, e.beq_iff k i, e.beq_iff j i, e.beq_iff j k)

  -- The keys of a dictionary stay distinct.
  pub put-IsDistinct :
      (d : Dict K V) (k : K) (v : V) → IsDistinct (keys d) → IsDistinct (keys (put d k v))
  unfolding put
  put-IsDistinct [] k v h = ground arith
  put-IsDistinct ((i, w) ∷ d) k v h =
      ground
        (arith, put-IsDistinct d k v h.1, contains-keys-put d k i v, e.beq_iff k i, e.beq_iff i k)

pub ruleset dict_laws = (get-put, get-remove)
