-- ===== src/Config/Size.antt =====
-- config.py: `_SIZE_RE` and `parse_size`.
pub mod Bytes
use Prim.Native.Char.{Char, code}
use derico_sandbox.Prelude.{
  ℕ, ◌+◌, ◌*◌, ◌^◌, String, Bool, true, false, ◌&&◌, ◌||◌, Option, none, some, contains, nat_Eq,
  nat_eq, leb, [], ◌∷◌, if◌then◌else◌,
}
use derico_sandbox.Prelude.Decimal.{is_digit, digit_value}
use derico_sandbox.Errors.{Result, ok, err, config_error, invalid_size}

-- `[1-9]`
abbrev is_first_digit : Char → Bool
is_first_digit c = leb b'1' (code c) && leb (code c) b'9'

-- The value of the digits in front, and the text behind them.
unfoldable pub scan_digits : ℕ → String → ℕ × String
scan_digits acc String.[] = (acc, String.[])
scan_digits acc (String.◌∷◌ c s) =
    let more = scan_digits (acc * 10 + digit_value c) s in
    if is_digit c then more else (acc, String.◌∷◌ c s)

-- `"kmgtpe".index(unit.lower()) + 1`
unfoldable pub unit_exponent : Char → Option ℕ
unit_exponent c =
    let n = code c in
    if nat_eq n b'k' || nat_eq n b'K'
    then some 1
    else if nat_eq n b'm' || nat_eq n b'M'
    then some 2
    else if nat_eq n b'g' || nat_eq n b'G'
    then some 3
    else if nat_eq n b't' || nat_eq n b'T'
    then some 4
    else if nat_eq n b'p' || nat_eq n b'P'
    then some 5
    else if nat_eq n b'e' || nat_eq n b'E'
    then some 6
    else none

-- `([KMGTPEkmgtpe]?)` and what follows it
unfoldable pub scan_unit : String → ℕ × String
scan_unit String.[] = (0, String.[])
scan_unit (String.◌∷◌ c s) = elim (unit_exponent c) [ none ↦ (0, String.◌∷◌ c s) | some k ↦ (k, s) ]

-- `(x?)` for one character, and what follows it
unfoldable pub scan_char : ℕ → String → Bool × String
scan_char x String.[] = (false, String.[])
scan_char x (String.◌∷◌ c s) = if nat_eq (code c) x then (true, s) else (false, String.◌∷◌ c s)

abbrev pub at_end : String → Bool
at_end String.[] = true
at_end (String.◌∷◌ c s) = false

-- `base**exponent`, or `none` where `(i?)(B?)` does not reach the end of the text
unfoldable pub scale_from : ℕ → String → Option ℕ
scale_from exponent s =
    let (binary, rest) = scan_char b'i' s in
    let (_, rest') = scan_char b'B' rest in
    if at_end rest' then some ((if binary then 1024 else 1000) ^ exponent) else none

unfoldable pub scale : String → Option ℕ
scale s = let (exponent, rest) = scan_unit s in scale_from exponent rest

unfoldable pub parse_size : String → Result ℕ
parse_size String.[] = err (config_error (invalid_size ""))
parse_size (String.◌∷◌ c s) =
    let value = String.◌∷◌ c s in
    let (number, rest) = scan_digits (digit_value c) s in
    if is_first_digit c
    then elim (scale rest) [
      | none ↦ err (config_error (invalid_size value))
      | some factor ↦ ok (number * factor)
    ]
    else err (config_error (invalid_size value))

-- `$`: the end of the text, or a newline that ends it
abbrev pub at_dollar : String → Bool
at_dollar String.[] = true
at_dollar (String.◌∷◌ c String.[]) = nat_eq (code c) 10
at_dollar (String.◌∷◌ c (String.◌∷◌ d s)) = false

-- `[KMGTPE]`, and `[kmgtpe]`
unfoldable pub is_upper_unit : Char → Bool
is_upper_unit c = contains (b'K' ∷ b'M' ∷ b'G' ∷ b'T' ∷ b'P' ∷ b'E' ∷ []) (code c)

unfoldable pub is_small_unit : Char → Bool
is_small_unit c = contains (b'k' ∷ b'm' ∷ b'g' ∷ b't' ∷ b'p' ∷ b'e' ∷ []) (code c)

-- `(?:[KMGTPE]i?B?|[kmgtpe])?$`
unfoldable pub size_suffix : String → Bool
size_suffix String.[] = true
size_suffix (String.◌∷◌ c s) =
    if is_upper_unit c
    then at_dollar (scan_char b'B' (scan_char b'i' s).1).1
    else if is_small_unit c
    then at_dollar s
    else at_dollar (String.◌∷◌ c s)

-- `_SIZE_RE.match(value)`
unfoldable pub is_size : String → Bool
is_size String.[] = false
is_size (String.◌∷◌ c s) = is_first_digit c && size_suffix (scan_digits (digit_value c) s).1
