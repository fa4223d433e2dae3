-- ===== src/Prelude/Split.antt =====
-- `split` takes apart what `join` puts together.
use Prim.Native.Char.{Char, code}
use Prim.Native.String.{String, ◌++◌ as ◌<>◌}
use text.Mathlib.TextLemmas.{append-nil, append_assoc, cons-append, nil-append}
use derico_sandbox.Prelude.{
  All, Bool-cases, List, [], ap, arith, false, filter, inl, inr, nat_eq, not, refl, string_Eq, sym,
  true, ℕ, ◌==◌, ◌∙◌, ◌∷◌, ◌≡◌,
}
use derico_sandbox.Prelude.Text.{any_char, join, single, split, split_onto}

-- No character of the text has the code.
abbrev pub Lacks : ℕ → String → Type 0
Lacks sep s = any_char (λ c. nat_eq (code c) sep) s ≡ false

append-single : (c : Char) (s : String) → single c <> s ≡ String.◌∷◌ c s
append-single c s = cons-append c String.[] s ∙ ap (λ t. String.◌∷◌ c t) (nil-append s)

append-snoc :
    (cur : String) (c : Char) (s : String) → (cur <> single c) <> s ≡ cur <> String.◌∷◌ c s
append-snoc cur c s = append_assoc cur (single c) s ∙ ap (λ t. cur <> t) (append-single c s)

split_onto-last : (sep : ℕ) (s cur : String) → Lacks sep s → split_onto sep s cur ≡ (cur <> s) ∷ []
unfolding split_onto any_char
split_onto-last sep String.[] cur h = ap (λ t. t ∷ []) (sym (append-nil cur))
split_onto-last sep (String.◌∷◌ c s) cur h = elim (Bool-cases (nat_eq (code c) sep)) [
  | inl hit ↦ let r = rw hit at h in cc
  | inr miss ↦ rw miss (
      split_onto-last sep s (cur <> single c) (let r = rw miss at h in r)
      ∙ ap (λ t. t ∷ []) (append-snoc cur c s))
]

nat_eq_refl : (n : ℕ) → nat_eq n n ≡ true
nat_eq_refl n = ground arith

split_onto-more :
    (d : Char) (s rest cur : String)
    → Lacks (code d) s
    → split_onto (code d) (s <> single d <> rest) cur
      ≡ (cur <> s) ∷ split_onto (code d) rest String.[]
unfolding split_onto any_char
split_onto-more d String.[] rest cur h =
    ap (λ t. split_onto (code d) t cur) (nil-append (single d <> rest) ∙ append-single d rest)
    ∙ rw (nat_eq_refl (code d))
        (ap (λ t. t ∷ split_onto (code d) rest String.[]) (sym (append-nil cur)))
split_onto-more d (String.◌∷◌ c s) rest cur h =
    ap (λ t. split_onto (code d) t cur) (cons-append c s (single d <> rest))
    ∙ elim (Bool-cases (nat_eq (code c) (code d))) [
      | inl hit ↦ let r = rw hit at h in cc
      | inr miss ↦ rw miss (
          split_onto-more d s rest (cur <> single c) (let r = rw miss at h in r)
          ∙ ap (λ t. t ∷ split_onto (code d) rest String.[]) (append-snoc cur c s))
    ]

pub split-join :
    (d : Char) (p : String) (ps : List String)
    → All (Lacks (code d)) (p ∷ ps)
    → split (code d) (join (single d) (p ∷ ps)) ≡ p ∷ ps
unfolding split join
split-join d p [] h = split_onto-last (code d) p String.[] h.0 ∙ ap (λ t. t ∷ []) (nil-append p)
split-join d p (q ∷ ps) h =
    split_onto-more d p (join (single d) (q ∷ ps)) String.[] h.0
    ∙ ap (λ t. t ∷ split (code d) (join (single d) (q ∷ ps))) (nil-append p)
    ∙ ap (λ ts. p ∷ ts) (split-join d q ps h.1)

-- The items of a text that a comma separates, without empty ones.
abbrev pub items_of : String → List String
items_of s = filter (λ h. not (h == "")) (split b',' s)

-- An item that is not empty and has no comma.
abbrev pub IsListable : String → Type 0
IsListable item = ((item == "") ≡ false) × Lacks b',' item

filter-IsListable :
    (items : List String) → All IsListable items → filter (λ h. not (h == "")) items ≡ items
filter-IsListable [] h = refl
filter-IsListable (item ∷ items) h =
    rw (h.0.0) (ap (λ rest. item ∷ rest) (filter-IsListable items h.1))

lacking : (items : List String) → All IsListable items → All (Lacks b',') items
lacking [] h = tt
lacking (item ∷ items) h = (h.0.1, lacking items h.1)

pub items_of-join : (items : List String) → All IsListable items → items_of (join "," items) ≡ items
unfolding split split_onto join
items_of-join [] h = refl
items_of-join (item ∷ items) h =
    ap (filter (λ h. not (h == ""))) (split-join "," item items (lacking (item ∷ items) h))
    ∙ filter-IsListable (item ∷ items) h
