-- ===== src/Config/Names.antt =====
-- config.py: `_safe_text`, `_reject_unknown` and `sanitize_name`.
use Prim.Native.Char.{Char, code}
use derico_sandbox.Prelude.{
  ℕ, zero, suc, ◌-◌, String, ◌<>◌, List, [], ◌∷◌, Bool, true, false, not, ◌&&◌, ◌||◌, filter,
  contains, is_empty, ◌==◌, string_Eq, nat_eq, leb, if◌then◌else◌,
}
use derico_sandbox.Prelude.Dict.{Dict, keys}
use derico_sandbox.Prelude.Sort.{sorted}
use derico_sandbox.Prelude.Text.{str_le, any_char, strip, strip_by, take_chars}
use derico_sandbox.Errors.{
  Result, ok, err, config_error, unsafe_text, unknown_fields, empty_name, ◌>>=◌,
}
use derico_sandbox.Json.{Value}
use derico_sandbox.Platform.{Platform}

-- `_CONTROL_RE`
abbrev is_control : Char → Bool
is_control c = leb (code c) 0x1f || nat_eq (code c) 0x7f

abbrev unsafe_categories : List String
unsafe_categories = "Cc" ∷ "Cf" ∷ "Cs" ∷ "Co" ∷ "Cn" ∷ "Zl" ∷ "Zp" ∷ []

unfoldable pub safe_text : Platform → String → String → Result String
safe_text platform value label =
    if any_char is_control value
      || any_char (λ c. contains unsafe_categories (platform.category c)) value
    then err (config_error (unsafe_text label))
    else ok value

unfoldable pub reject_unknown : Dict String Value → List String → String → Result (Unit {0})
reject_unknown mapping allowed label =
    let unknown = sorted str_le (filter (λ k. not (contains allowed k)) (keys mapping)) in
    if is_empty unknown then ok tt else err (config_error (unknown_fields label unknown))

-- The characters that `_NAME_RE` keeps: `[a-zA-Z0-9.-]`
abbrev is_upper : Char → Bool
is_upper c = leb b'A' (code c) && leb (code c) b'Z'

abbrev is_name_char : Char → Bool
is_name_char c =
    is_upper c
    || (leb b'a' (code c) && leb (code c) b'z')
    || (leb b'0' (code c) && leb (code c) b'9')
    || nat_eq (code c) b'.'
    || nat_eq (code c) b'-'

-- `_NAME_RE.sub("-", s)`: each longest run of other characters becomes one dash. The flag tells that
-- the run before `s` has had its dash.
unfoldable pub dash_runs : Bool → String → String
dash_runs in_run String.[] = String.[]
dash_runs in_run (String.◌∷◌ c s) =
    let kept = String.◌∷◌ c (dash_runs false s) in
    let other = dash_runs true s in
    if is_name_char c then kept else if in_run then other else "-" <> other

unfoldable pub nth_char : String → ℕ → Char
nth_char String.[] n = "a"
nth_char (String.◌∷◌ c s) zero = c
nth_char (String.◌∷◌ c s) (suc n) = nth_char s n

-- `.lower()`, of text that is ASCII by then
unfoldable pub lower_char : Char → Char
lower_char c = if is_upper c then nth_char "abcdefghijklmnopqrstuvwxyz" (code c - b'A') else c

unfoldable pub lower : String → String
lower String.[] = String.[]
lower (String.◌∷◌ c s) = String.◌∷◌ (lower_char c) (lower s)

-- `.strip("-.")`
abbrev is_edge : Char → Bool
is_edge c = nat_eq (code c) b'-' || nat_eq (code c) b'.'

unfoldable pub sanitize_name : Platform → String → Result String
sanitize_name platform value = do
  value ← safe_text platform value "name"
  let name = lower (strip_by is_edge (dash_runs false (strip value)))
  if name == "" then err (config_error empty_name) else ok (take_chars 40 name)
