-- ===== src/Prelude/Text.antt =====
-- Python's `str` as a native text: the methods that the program calls, walked by characters.
use Prim.Native.Nat.{suc, zero}
use mathlib.Core.Option.{Option, none, some}
use Prim.Native.Char.{Char, code}
use Prim.Native.Nat.{ℕ, ◌+◌}
use Prim.Native.String.{String, ◌++◌ as ◌<>◌, compare}
use text.Mathlib.Text.{is_le}
use mathlib.Core.List.{List, [], ◌∷◌}
use mathlib.Core.Bool.{Bool, true, false, ◌&&◌, ◌||◌}
use derico_sandbox.Prelude.Tests.{leb, nat_eq, nat_Eq, string_Eq, ◌==◌, if◌then◌else◌}
use derico_sandbox.Prelude.Lists.{contains}

-- `a <= b` on texts: by code points
abbrev pub str_le : String → String → Bool
str_le a b = is_le (compare a b)

-- A text of one character.
abbrev pub single : Char → String
single c = String.◌∷◌ c String.[]

unfoldable pub reverse : String → String
reverse String.[] = String.[]
reverse (String.◌∷◌ c s) = reverse s <> single c

-- `s.startswith(prefix)`
unfoldable pub starts_with : String → String → Bool
starts_with s String.[] = true
starts_with String.[] (String.◌∷◌ c p) = false
starts_with (String.◌∷◌ d s) (String.◌∷◌ c p) = nat_eq (code d) (code c) && starts_with s p

unfoldable pub ends_with : String → String → Bool
ends_with s suffix = starts_with (reverse s) (reverse suffix)

-- `part in s`
unfoldable pub has_text : String → String → Bool
has_text String.[] part = starts_with String.[] part
has_text (String.◌∷◌ c s) part = starts_with (String.◌∷◌ c s) part || has_text s part

-- Some character passes the test.
unfoldable pub any_char : (Char → Bool) → String → Bool
any_char p String.[] = false
any_char p (String.◌∷◌ c s) = p c || any_char p s

-- The code points for which `str.isspace` holds, which `str.strip` removes.
unfoldable pub is_space : Char → Bool
is_space c =
    let n = code c in
    (leb 9 n && leb n 13)
    || (leb 28 n && leb n 32)
    || (leb 0x2000 n && leb n 0x200A)
    || contains (0x85 ∷ 0xA0 ∷ 0x1680 ∷ 0x2028 ∷ 0x2029 ∷ 0x202F ∷ 0x205F ∷ 0x3000 ∷ []) n

unfoldable pub drop_while : (Char → Bool) → String → String
drop_while p String.[] = String.[]
drop_while p (String.◌∷◌ c s) = let rest = drop_while p s in if p c then rest else String.◌∷◌ c s

-- `s.strip(...)`, and `s.rstrip(...)`
unfoldable pub strip_by : (Char → Bool) → String → String
strip_by p s = reverse (drop_while p (reverse (drop_while p s)))

unfoldable pub rstrip_by : (Char → Bool) → String → String
rstrip_by p s = reverse (drop_while p (reverse s))

unfoldable pub strip : String → String
strip = strip_by is_space

-- `s.split(sep)` at one character: the part before, and the parts behind each separator
unfoldable pub split_onto : ℕ → String → String → List String
split_onto sep String.[] cur = cur ∷ []
split_onto sep (String.◌∷◌ c s) cur =
    let here = cur ∷ split_onto sep s String.[] in
    let later = split_onto sep s (cur <> single c) in if nat_eq (code c) sep then here else later

unfoldable pub split : ℕ → String → List String
split sep s = split_onto sep s String.[]

-- `sep.join(parts)`
unfoldable pub join : String → List String → String
join sep [] = String.[]
join sep (p ∷ []) = p
join sep (p ∷ q ∷ ps) = p <> sep <> join sep (q ∷ ps)

-- `s[:n]`
unfoldable pub take_chars : ℕ → String → String
take_chars n String.[] = String.[]
take_chars Prim.Native.Nat.zero (String.◌∷◌ c s) = String.[]
take_chars (Prim.Native.Nat.suc n) (String.◌∷◌ c s) = String.◌∷◌ c (take_chars n s)

-- `s[n:]`
unfoldable pub drop_chars : ℕ → String → String
drop_chars Prim.Native.Nat.zero s = s
drop_chars (Prim.Native.Nat.suc n) String.[] = String.[]
drop_chars (Prim.Native.Nat.suc n) (String.◌∷◌ c s) = drop_chars n s

-- `text or None`
unfoldable pub or_none : Option String → Option String
or_none none = none
or_none (some s) = if s == "" then none else some s

-- `f"{s:<n}"` and `s.ljust(n)`
unfoldable pub pad : ℕ → String → String
pad zero s = s
pad (suc n) String.[] = String.◌∷◌ " " (pad n String.[])
pad (suc n) (String.◌∷◌ c s) = String.◌∷◌ c (pad n s)
