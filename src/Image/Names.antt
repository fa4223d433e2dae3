-- ===== src/Image/Names.antt =====
-- imagebuild.py: the names of stage scripts (`_STAGE_FILE_RE`) and of cache keys (`_KEY_RE`), and
-- `path.stem`.
use mathlib.Core.Option
use derico_sandbox.Platform.{Platform}
use derico_sandbox.Prelude.{
  Bool, Option, String, all, false, if◌then◌else◌, leb, nat_Eq, nat_eq, none, not, some, string_Eq,
  suc, true, zero, ℕ, ◌&&◌, ◌==◌, ◌||◌,
}
use derico_sandbox.Prelude.Decimal.{is_digit}
use derico_sandbox.Prelude.Text.{
  any_char, ends_with, reverse, single, split, starts_with, drop_chars,
}
use Prim.Native.Char.{Char, code}

-- `$` matches before a final line feed too.
unfoldable pub less_newline : String → String
less_newline s = if ends_with s (single "\n") then reverse (drop_chars 1 (reverse s)) else s

-- `[a-z0-9]`
abbrev is_slug_char : Char → Bool
is_slug_char c = (leb b'a' (code c) && leb (code c) b'z') || is_digit c

-- `[a-z0-9]+`
unfoldable pub is_slug : String → Bool
is_slug s = not (s == "") && not (any_char (λ c. not (is_slug_char c)) s)

-- `\d`: a decimal digit of any script
abbrev is_decimal : Platform → Char → Bool
is_decimal platform c = elim (platform.decimal c) [ some d ↦ true | none ↦ false ]

-- `\d{2}-[a-z0-9]+(?:-[a-z0-9]+)*`
unfoldable pub is_stage_name : Platform → String → Bool
is_stage_name platform (String.◌∷◌ c (String.◌∷◌ d (String.◌∷◌ dash s))) =
    is_decimal platform c
    && is_decimal platform d
    && nat_eq (code dash) b'-'
    && all is_slug (split b'-' s)
is_stage_name platform _ = false

-- `_STAGE_FILE_RE.match(name)`
unfoldable pub is_stage_file : Platform → String → Bool
is_stage_file platform s =
    let t = less_newline s in
    ends_with t ".sh" && is_stage_name platform (reverse (drop_chars 3 (reverse t)))

-- The text before the first dot and the text behind it.
unfoldable pub until_dot : String → Option (String × String)
until_dot String.[] = none
until_dot (String.◌∷◌ c s) =
    let rest = Option.map (λ (p : String × String). (String.◌∷◌ c p.0, p.1)) (until_dot s) in
    if nat_eq (code c) b'.' then some (String.[], s) else rest

-- `path.stem` of a name: all before its last dot, when something stands on both sides of it
unfoldable pub stem : String → String
stem s = elim (until_dot (reverse s)) [
  | some (suffix, base) ↦ if suffix == "" || base == "" then s else reverse base
  | none ↦ s
]

-- `[0-9a-f]`
abbrev is_hex : Char → Bool
is_hex c = is_digit c || (leb b'a' (code c) && leb (code c) b'f')

unfoldable pub text_length : String → ℕ
text_length String.[] = zero
text_length (String.◌∷◌ c s) = suc (text_length s)

-- `_KEY_RE.match(key)`
unfoldable pub is_key : String → Bool
is_key s =
    let t = less_newline s in nat_eq (text_length t) 16 && not (any_char (λ c. not (is_hex c)) t)

-- `s.index(part)`, for a part that `s` has
unfoldable pub text_index : String → String → ℕ
text_index String.[] part = zero
text_index (String.◌∷◌ c s) part =
    let later = suc (text_index s part) in if starts_with (String.◌∷◌ c s) part then zero else later
