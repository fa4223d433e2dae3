-- ===== src/Image/Entries/Printed.antt =====
-- `_int` of a printed number.
use mathlib.Core.Option
use text.Mathlib.TextLemmas.{cons-append, nil-append}
use Prim.Native.Char.{Char}
use derico_sandbox.Config.Ports.{int_digits, negate, int_of_text, signed, is_int_space}
use derico_sandbox.Image.Entries.{int_or_zero}
use derico_sandbox.Platform.{Platform}
use derico_sandbox.Prelude.{
  String, ap, arith, false, refl, some, string_Eq, suc, true, zero, ℕ, ◌+◌, ◌*◌, ◌∙◌, ◌≡◌, ◌≢◌,
  nat_Eq,
}
use derico_sandbox.Prelude.Decimal.{
  all_digits, digit_value, is_digit, show, show_int, value_onto, value_onto-show, all_digits-show,
  show-filled,
}
use derico_sandbox.Prelude.Int.{negsuc, pos, ℤ}
use derico_sandbox.Prelude.Strip.{strip_by-none}
use derico_sandbox.Prelude.Text.{any_char, is_space}

-- `int` reads the ASCII digits as their values.
abbrev pub ReadsDigits : Platform → Type 0
ReadsDigits platform = (c : Char) → is_digit c ≡ true → platform.decimal c ≡ some (digit_value c)

module _ (platform : Platform) (reads : ReadsDigits platform) where
  int_digits-value_onto :
      (acc : ℕ) (s : String)
      → all_digits s ≡ true
      → int_digits platform false acc s ≡ some (value_onto acc s)
  unfolding int_digits
  int_digits-value_onto acc String.[] h = refl
  int_digits-value_onto acc (String.◌∷◌ c s) h =
      ground (arith, reads c, int_digits-value_onto (acc * 10 + digit_value c) s)

  digits-value_onto :
      (s : String)
      → all_digits s ≡ true
      → s ≢ String.[]
      → int_digits platform true 0 s ≡ some (value_onto 0 s)
  unfolding int_digits
  digits-value_onto String.[] h filled = absurd (filled refl)
  digits-value_onto (String.◌∷◌ c s) h filled =
      ground (arith, reads c, int_digits-value_onto (0 * 10 + digit_value c) s)

  signed-digits :
      (s : String)
      → all_digits s ≡ true
      → s ≢ String.[]
      → signed platform s ≡ some (pos (value_onto 0 s))
  unfolding signed
  signed-digits String.[] h filled = absurd (filled refl)
  signed-digits (String.◌∷◌ c s) h filled =
      ground (arith, digits-value_onto (String.◌∷◌ c s) h filled)

  signed-show_int : (z : ℤ) → signed platform (show_int z) ≡ some z
  unfolding signed show_int
  signed-show_int (pos n) =
      signed-digits (show n) (all_digits-show n) (show-filled n)
      ∙ ap (λ m. some (pos m)) (value_onto-show n)
  signed-show_int (negsuc n) =
      ap (signed platform) (cons-append "-" String.[] (show (suc n)))
      ∙ ap (λ s. Option.map negate (int_digits platform true 0 s)) (nil-append (show (suc n)))
      ∙ ap (Option.map negate) (
          digits-value_onto (show (suc n)) (all_digits-show (suc n)) (show-filled (suc n))
          ∙ ap some (value_onto-show (suc n)))

  digits-no_space : (s : String) → all_digits s ≡ true → any_char is_int_space s ≡ false
  unfolding any_char is_space
  digits-no_space String.[] h = refl
  digits-no_space (String.◌∷◌ c s) h = ground (arith, digits-no_space s)

  no_space : (z : ℤ) → any_char is_int_space (show_int z) ≡ false
  unfolding show_int any_char is_space
  no_space (pos n) = digits-no_space (show n) (all_digits-show n)
  no_space (negsuc n) =
      ap (any_char is_int_space) (
        cons-append "-" String.[] (show (suc n))
        ∙ ap (λ s. String.◌∷◌ "-" s) (nil-append (show (suc n))))
      ∙ digits-no_space (show (suc n)) (all_digits-show (suc n))

  pub int_or_zero-show_int : (z : ℤ) → int_or_zero platform (some (show_int z)) ≡ z
  unfolding int_or_zero int_of_text
  int_or_zero-show_int z =
      ap (λ s. Option.get_or (signed platform s) (pos zero))
        (strip_by-none is_int_space (show_int z) (no_space z))
      ∙ ap (λ o. Option.get_or o (pos zero)) (signed-show_int z)
