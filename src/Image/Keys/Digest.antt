-- ===== src/Image/Keys/Digest.antt =====
-- What equal digests say of the texts: `_digest` and the NUL that ends each part.
use Prim.Native.Char.{code}
use text.Mathlib.TextLemmas.{cons-append, nil-append}
use derico_sandbox.Image.Keys.{digest, hashed_text}
use derico_sandbox.Platform.{Platform}
use derico_sandbox.Prelude.{
  Bool-cases, List, String, ap, arith, if◌then◌else◌, inl, inr, nat_Eq, nat_eq, refl, string_Eq,
  suc, zero, sym, ℕ, ◌<>◌, ◌==◌, ◌∙◌, ◌∷◌, ◌≡◌, ◌≢◌, ◌⊎◌, eq_iff,
}
use derico_sandbox.Prelude.Split.{Lacks}
use derico_sandbox.Prelude.Text.{any_char, take_chars}

-- The part of a text before its first NUL, and the part behind.
before_nul : String → String
before_nul String.[] = String.[]
before_nul (String.◌∷◌ c s) =
    let rest = before_nul s in if nat_eq (code c) 0 then String.[] else String.◌∷◌ c rest

behind_nul : String → String
behind_nul String.[] = String.[]
behind_nul (String.◌∷◌ c s) = let rest = behind_nul s in if nat_eq (code c) 0 then s else rest

before_nul-append : (p x : String) → Lacks 0 p → before_nul (p <> "\0" <> x) ≡ p
unfolding before_nul any_char
before_nul-append String.[] x h =
    ap before_nul (nil-append ("\0" <> x) ∙ cons-append "\0" String.[] x)
before_nul-append (String.◌∷◌ c p) x h = elim (Bool-cases (nat_eq (code c) 0)) [
  | inl nul ↦ let r = rw nul at h in cc
  | inr other ↦
      ap before_nul (cons-append c p ("\0" <> x))
      ∙ rw other (ap (λ t. String.◌∷◌ c t) (before_nul-append p x (let r = rw other at h in r)))
]

behind_nul-append : (p x : String) → Lacks 0 p → behind_nul (p <> "\0" <> x) ≡ x
unfolding behind_nul any_char
behind_nul-append String.[] x h =
    ap behind_nul (nil-append ("\0" <> x) ∙ cons-append "\0" String.[] x) ∙ nil-append x
behind_nul-append (String.◌∷◌ c p) x h = elim (Bool-cases (nat_eq (code c) 0)) [
  | inl nul ↦ let r = rw nul at h in cc
  | inr other ↦
      ap behind_nul (cons-append c p ("\0" <> x))
      ∙ rw other (behind_nul-append p x (let r = rw other at h in r))
]

-- Two hashed lists with one text have one head, if a NUL ends neither head early.
pub hashed_text-head :
    (p q : String) (ps qs : List String)
    → Lacks 0 p
    → Lacks 0 q
    → hashed_text (p ∷ ps) ≡ hashed_text (q ∷ qs)
    → (p ≡ q) × (hashed_text ps ≡ hashed_text qs)
unfolding hashed_text
hashed_text-head p q ps qs hp hq h = (
  sym (before_nul-append p (hashed_text ps) hp)
      ∙ ap before_nul h
      ∙ before_nul-append q (hashed_text qs) hq,
  sym (behind_nul-append p (hashed_text ps) hp)
      ∙ ap behind_nul h
      ∙ behind_nul-append q (hashed_text qs) hq,
)

-- Two texts with one digest, as far as a key holds it.
abbrev pub Collision : Platform → Type 0
Collision platform =
    (x : String) × (y : String) × (x ≢ y)
    × (take_chars 16 (platform.sha256 x) ≡ take_chars 16 (platform.sha256 y))

pub digest-cases :
    (platform : Platform) (xs ys : List String)
    → take_chars 16 (digest platform xs) ≡ take_chars 16 (digest platform ys)
    → Collision platform ⊎ (hashed_text xs ≡ hashed_text ys)
unfolding digest
digest-cases platform xs ys h = elim (Bool-cases (hashed_text xs == hashed_text ys)) [
  | inl same ↦ inr ((eq_iff (hashed_text xs) (hashed_text ys)).0 same)
  | inr other ↦ inl (
    hashed_text xs,
    hashed_text ys,
    λ eq. absurd (ground (arith, (eq_iff (hashed_text xs) (hashed_text ys)).1 eq)),
    h,
  )
]

pub take_chars-Lacks : (n : ℕ) (s : String) → Lacks 0 s → Lacks 0 (take_chars n s)
unfolding any_char take_chars
take_chars-Lacks zero String.[] h = refl
take_chars-Lacks zero (String.◌∷◌ c s) h = refl
take_chars-Lacks (suc n) String.[] h = refl
take_chars-Lacks (suc n) (String.◌∷◌ c s) h = ground (arith, take_chars-Lacks n s)
