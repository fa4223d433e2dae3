-- ===== src/Prelude/Decimal.antt =====
-- `str(n)` of a number that is not negative, and what reads it back.
use derico_sandbox.Prelude.{◌<>◌}
use derico_sandbox.Prelude.Int.{negsuc, pos, ℤ}
use Prim.Native.Char.{Char, code}
use Prim.Native.Nat.{ℕ, zero, suc, ◌+◌, ◌-◌, ◌*◌, ◌/◌, ◌%◌, ◌<◌}
use Prim.Native.String.{String}
use mathlib.Core.Path.{◌≡◌, refl, sym, ◌∙◌, ap}
use mathlib.Core.Logic.{inl, inr, ◌≢◌}
use text.Mathlib.TextLemmas.{cons-ne-nil}
use mathlib.Core.Bool.{Bool, true, ◌&&◌}
use native.Mathlib.Omega.{arith}
use derico_sandbox.Prelude.Tests.{ltb, leb, Bool-cases, if◌then◌else◌}

unfoldable pub digit_char : ℕ → Char
digit_char zero = "0"
digit_char (suc zero) = "1"
digit_char (suc (suc zero)) = "2"
digit_char (suc (suc (suc zero))) = "3"
digit_char (suc (suc (suc (suc zero)))) = "4"
digit_char (suc (suc (suc (suc (suc zero))))) = "5"
digit_char (suc (suc (suc (suc (suc (suc zero)))))) = "6"
digit_char (suc (suc (suc (suc (suc (suc (suc zero))))))) = "7"
digit_char (suc (suc (suc (suc (suc (suc (suc (suc zero)))))))) = "8"
digit_char _ = "9"

-- The digits of `n` in front of `out`; the fuel is a bound on `n`.
show_onto : ℕ → ℕ → String → String
show_onto zero n out = out
show_onto (suc fuel) n out =
    let more = show_onto fuel (n / 10) (String.◌∷◌ (digit_char (n % 10)) out) in
    if ltb n 10 then String.◌∷◌ (digit_char n) out else more

unfoldable pub show : ℕ → String
unfolding show_onto digit_char
show n = show_onto (suc n) n String.[]

-- `str(z)` of an `int`
unfoldable pub show_int : ℤ → String
show_int (pos n) = show n
show_int (negsuc n) = "-" <> show (suc n)

-- An ASCII digit, `[0-9]`.
abbrev pub is_digit : Char → Bool
is_digit c = leb b'0' (code c) && leb (code c) b'9'

abbrev pub digit_value : Char → ℕ
digit_value c = code c - b'0'

-- The value of a text read as digits behind those of `acc`.
abbrev pub value_onto : ℕ → String → ℕ
value_onto acc String.[] = acc
value_onto acc (String.◌∷◌ c s) = value_onto (acc * 10 + digit_value c) s

abbrev pub all_digits : String → Bool
all_digits String.[] = true
all_digits (String.◌∷◌ c s) = is_digit c && all_digits s

digit_char_lem : (d : ℕ) → d < 10 → code (digit_char d) ≡ b'0' + d
unfolding digit_char
digit_char_lem zero h = refl
digit_char_lem (suc zero) h = refl
digit_char_lem (suc (suc zero)) h = refl
digit_char_lem (suc (suc (suc zero))) h = refl
digit_char_lem (suc (suc (suc (suc zero)))) h = refl
digit_char_lem (suc (suc (suc (suc (suc zero))))) h = refl
digit_char_lem (suc (suc (suc (suc (suc (suc zero)))))) h = refl
digit_char_lem (suc (suc (suc (suc (suc (suc (suc zero))))))) h = refl
digit_char_lem (suc (suc (suc (suc (suc (suc (suc (suc zero)))))))) h = refl
digit_char_lem (suc (suc (suc (suc (suc (suc (suc (suc (suc zero))))))))) h = refl
digit_char_lem (suc (suc (suc (suc (suc (suc (suc (suc (suc (suc d)))))))))) h =
    absurd (omega arith)

value_onto-show_onto :
    (fuel n : ℕ) (out : String) → n < fuel → value_onto 0 (show_onto fuel n out) ≡ value_onto n out
unfolding show_onto
value_onto-show_onto zero n out h = absurd (omega arith)
value_onto-show_onto (suc fuel) n out h = elim (Bool-cases (ltb n 10)) [
  | inl small ↦
      rw small (ap (λ t. value_onto t out) (omega (arith, digit_char_lem n (ground arith))))
  | inr large ↦ rw large (
      value_onto-show_onto fuel (n / 10) _ (ground arith)
      ∙ ap (λ t. value_onto t out) (omega (arith, digit_char_lem (n % 10) (omega arith))))
]

-- A printed number reads back as itself.
pub value_onto-show : (n : ℕ) → value_onto 0 (show n) ≡ n
unfolding show
value_onto-show n = value_onto-show_onto (suc n) n String.[] (omega arith)

-- Two numbers that print alike are equal.
pub show_injective : (m n : ℕ) → show m ≡ show n → m ≡ n
show_injective m n h = sym (value_onto-show m) ∙ ap (value_onto 0) h ∙ value_onto-show n

all_digits-show_onto :
    (fuel n : ℕ) (out : String) → all_digits out ≡ true → all_digits (show_onto fuel n out) ≡ true
unfolding show_onto
all_digits-show_onto zero n out h = h
all_digits-show_onto (suc fuel) n out h = elim (Bool-cases (ltb n 10)) [
  | inl small ↦ rw small (ground (arith, digit_char_lem n (ground arith)))
  | inr large ↦
      rw large (
        all_digits-show_onto fuel (n / 10) _
          (ground (arith, digit_char_lem (n % 10) (omega arith))))
]

-- A printed number holds digits alone.
pub all_digits-show : (n : ℕ) → all_digits (show n) ≡ true
unfolding show
all_digits-show n = all_digits-show_onto (suc n) n String.[] refl

show_onto-filled : (fuel n : ℕ) (out : String) → out ≢ String.[] → show_onto fuel n out ≢ String.[]
unfolding show_onto
show_onto-filled zero n out filled = filled
show_onto-filled (suc fuel) n out filled = elim (Bool-cases (ltb n 10)) [
  | inl small ↦ rw small (cons-ne-nil (digit_char n) out)
  | inr large ↦ rw large (show_onto-filled fuel (n / 10) _ (cons-ne-nil (digit_char (n % 10)) out))
]

-- A printed number is not empty.
pub show-filled : (n : ℕ) → show n ≢ String.[]
unfolding show show_onto
show-filled n = elim (Bool-cases (ltb n 10)) [
  | inl small ↦ rw small (cons-ne-nil (digit_char n) String.[])
  | inr large ↦
      rw large (show_onto-filled n (n / 10) _ (cons-ne-nil (digit_char (n % 10)) String.[]))
]

show_port : show 65535 ≡ "65535"
unfolding show
show_port = refl
