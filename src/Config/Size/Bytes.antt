-- ===== src/Config/Size/Bytes.antt =====
-- The check on a configured size against the reader of sizes.
use derico_sandbox.Errors.{ok}
use derico_sandbox.Prelude.Decimal.{digit_value}
use Prim.Native.Char.{Char, code}
use derico_sandbox.Prelude.{
  Bool, Option-cases, String, arith, false, if◌then◌else◌, nat_eq, none, not, some, true, ℕ, ◌&&◌,
  ◌<◌, ◌^◌, ◌≡◌, ◌⊎◌, inl, inr, nat_Eq, refl, string_Eq, ◌≢◌, ◌*◌, ◌+◌, ◌≤◌,
}
use native.Mathlib.Nat.{one-le-pow}
use derico_sandbox.Config.Size.{
  parse_size, is_size, scale, size_suffix, scan_digits, unit_exponent, at_dollar, scan_char,
  scan_unit, at_end, scale_from, is_small_unit, is_upper_unit,
}

-- No character of the text is a newline.
abbrev pub one_line : String → Bool
one_line String.[] = true
one_line (String.◌∷◌ c s) = not (nat_eq (code c) 10) && one_line s

unit_exponent_cases : (c : Char) → (unit_exponent c ≡ none) ⊎ ((k : ℕ) × (unit_exponent c ≡ some k))
unit_exponent_cases c = Option-cases (unit_exponent c)

pow_pos : (b : Bool) (k : ℕ) → 0 < (if b then 1024 else 1000) ^ k
pow_pos true k = one-le-pow k 1024 (omega arith)
pow_pos false k = one-le-pow k 1000 (omega arith)

scale_from-pos : (k : ℕ) (s : String) (f : ℕ) → scale_from k s ≡ some f → 0 < f
unfolding scale_from
scale_from-pos k s f h = ground (arith, pow_pos (scan_char b'i' s).0 k)

scale-pos : (s : String) (f : ℕ) → scale s ≡ some f → 0 < f
unfolding scale
scale-pos s f h = scale_from-pos (scan_unit s).0 (scan_unit s).1 f h

mul_pos : (a b : ℕ) → 0 < a → 0 < b → 0 < a * b
mul_pos a b h k = grind arith

upper_unit : (c : Char) → is_upper_unit c ≡ true → unit_exponent c ≢ none
unfolding is_upper_unit unit_exponent
upper_unit c h = ground arith

small_unit : (c : Char) → is_small_unit c ≡ true → unit_exponent c ≢ none
unfolding is_small_unit unit_exponent
small_unit c h = ground arith

at_dollar-one_line : (s : String) → at_dollar s ≡ true → one_line s ≡ true → s ≡ String.[]
at_dollar-one_line String.[] h o = refl
at_dollar-one_line (String.◌∷◌ c String.[]) h o = ground arith
at_dollar-one_line (String.◌∷◌ c (String.◌∷◌ d s)) h o = cc

no_dollar :
    (c : Char) (s : String)
    → at_dollar (String.◌∷◌ c s) ≡ true
    → one_line (String.◌∷◌ c s) ≡ true
    → ⊥
no_dollar c String.[] h o = ground arith
no_dollar c (String.◌∷◌ d s) h o = cc

one_line-scan_char : (x : ℕ) (s : String) → one_line s ≡ true → one_line (scan_char x s).1 ≡ true
unfolding scan_char
one_line-scan_char x String.[] o = refl
one_line-scan_char x (String.◌∷◌ c s) o = ground arith

scale_from-ends :
    (k : ℕ) (s : String)
    → at_end (scan_char b'B' (scan_char b'i' s).1).1 ≡ true
    → scale_from k s ≢ none
unfolding scale_from
scale_from-ends k s h e = ground arith

scale_from-unit :
    (k : ℕ) (s : String)
    → at_dollar (scan_char b'B' (scan_char b'i' s).1).1 ≡ true
    → one_line s ≡ true
    → scale_from k s ≢ none
scale_from-unit k s h o = scale_from-ends k s (
    rw (
      at_dollar-one_line (scan_char b'B' (scan_char b'i' s).1).1 h
        (one_line-scan_char b'B' _ (one_line-scan_char b'i' s o))))

scale_from-nil : (k : ℕ) → scale_from k String.[] ≢ none
unfolding scan_char
scale_from-nil k = scale_from-ends k String.[] refl

scale-unit :
    (c : Char) (s : String) (k : ℕ)
    → unit_exponent c ≡ some k
    → scale (String.◌∷◌ c s) ≡ scale_from k s
unfolding scale scan_unit
scale-unit c s k unit = ground arith

scale-suffix : (s : String) → size_suffix s ≡ true → one_line s ≡ true → scale s ≢ none
unfolding size_suffix
scale-suffix String.[] h o = unfold scale scan_unit in scale_from-nil 0
scale-suffix (String.◌∷◌ c s) h o = elim (Option-cases (unit_exponent c)) [
  | inl no_unit ↦ ground (arith, upper_unit c, small_unit c, no_dollar c s)
  | inr (k, unit) ↦
      rw (scale-unit c s k unit)
        (ground (arith, scale_from-unit k s, scale_from-nil k, no_dollar c s, at_dollar-one_line s))
]

one_line-scan_digits :
    (acc : ℕ) (s : String) → one_line s ≡ true → one_line (scan_digits acc s).1 ≡ true
unfolding scan_digits
one_line-scan_digits acc String.[] o = refl
one_line-scan_digits acc (String.◌∷◌ c s) o =
    ground (arith, one_line-scan_digits (acc * 10 + digit_value c) s)

scan_digits-ge : (acc : ℕ) (s : String) → acc ≤ (scan_digits acc s).0
unfolding scan_digits
scan_digits-ge acc String.[] = omega arith
scan_digits-ge acc (String.◌∷◌ c s) = ground (arith, scan_digits-ge (acc * 10 + digit_value c) s)

-- A size of one line that the configuration check accepts is read as a number of bytes that is not 0,
-- so two accepted sizes of one line can always be compared.
pub parse_size-is_size :
    (s : String) → is_size s ≡ true → one_line s ≡ true → (n : ℕ) × (parse_size s ≡ ok n) × (0 < n)
unfolding parse_size is_size
parse_size-is_size String.[] h o = cc
parse_size-is_size (String.◌∷◌ c s) h o =
    let (number, rest) = scan_digits (digit_value c) s in
    elim (Option-cases (scale rest)) [
      | inl e ↦ absurd (
          scale-suffix rest (ground arith) (one_line-scan_digits (digit_value c) s (ground arith))
            e)
      | inr (f, e) ↦ (
        number * f,
        ground arith,
        mul_pos number f (ground (arith, scan_digits-ge (digit_value c) s)) (scale-pos rest f e),
      )
    ]
