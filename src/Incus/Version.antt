-- ===== src/Incus/Version.antt =====
-- incus.py: `parse_server_version` and `acl_project_lookup_is_broken`.
pub mod Fixed
use derico_sandbox.Errors.{◌>>=◌}
use derico_sandbox.Config.Ports.{int_digits}
use derico_sandbox.Errors.{Result, crash, err, ok, value_error}
use derico_sandbox.Prelude.{
  Bool, List, Option, String, [], if◌then◌else◌, ltb, nat_Eq, nat_eq, none, not, some, string_Eq,
  take, true, ℕ, ◌==◌, ◌∷◌,
}
use derico_sandbox.Prelude.Text.{split, strip}
use derico_sandbox.System.{System}

abbrev pub Version : Type 0
Version = ℕ × ℕ × ℕ

-- `[0, 0]` behind the numbers, as far as one of the three is missing
unfoldable pub padded : List ℕ → Option Version
padded [] = none
padded (a ∷ []) = some (a, 0, 0)
padded (a ∷ b ∷ []) = some (a, b, 0)
padded (a ∷ b ∷ c ∷ rest) = some (a, b, c)

-- `v < w` on tuples
version_lt : Version → Version → Bool
version_lt (a, b, c) (x, y, z) =
    if nat_eq a x then if nat_eq b y then ltb c z else ltb b y else ltb a x

abbrev fix_lts : Version
fix_lts = (6, 0, 6)

abbrev fix_feature : Version
fix_feature = (6, 22, 0)

unfoldable pub acl_project_lookup_is_broken : Version → Bool
unfolding version_lt
acl_project_lookup_is_broken (a, b, c) =
    if not (nat_eq a 6)
    then ltb a 6
    else if nat_eq b 0
    then version_lt (a, b, c) fix_lts
    else version_lt (a, b, c) fix_feature

module _ (system : System) where
  -- The digits that a part starts with.
  unfoldable pub leading_digits : String → String
  leading_digits String.[] = String.[]
  leading_digits (String.◌∷◌ c s) =
      let rest = leading_digits s in if system.is_digit c then String.◌∷◌ c rest else String.[]

  -- `numbers`: `int` refuses a digit that is not decimal.
  unfoldable pub version_numbers : List String → Result (List ℕ)
  version_numbers [] = ok []
  version_numbers (part ∷ rest) =
      let digits = leading_digits part in
      let later = version_numbers rest in
      let numbers : Result (List ℕ) = elim (int_digits system.platform true 0 digits) [
        | some n ↦ later >>= λ ns. ok (n ∷ ns)
        | none ↦ err (crash value_error)
      ] in
      if digits == "" then ok [] else numbers

  unfoldable pub parse_server_version : String → Result (Option Version)
  parse_server_version value = do
    numbers ← version_numbers (take 3 (split b'.' (strip value)))
    ok (padded numbers)
