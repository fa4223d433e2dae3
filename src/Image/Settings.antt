-- ===== src/Image/Settings.antt =====
-- imagebuild.py: what a builder takes from the environment (`build_allow_from_env`, `_max_age_days`).
-- `build_allow_from_env`, of the variable's value
use mathlib.Core.Option
use Prim.Native.Nat.{max}
use derico_sandbox.Config.Ports.{int_of_text}
use derico_sandbox.FilePath.{FilePath}
use derico_sandbox.Platform.{Platform}
use derico_sandbox.Prelude.{
  Bool, List, Option, String, distinct, filter, map, nat_Eq, none, not, some, string_Eq, ℕ, ◌==◌,
}
use derico_sandbox.Prelude.Int.{negsuc, pos}
use derico_sandbox.Prelude.Sort.{sorted}
use derico_sandbox.Prelude.Text.{split, str_le, strip}

unfoldable pub build_allow_from_env : Option String → List String
build_allow_from_env raw =
    sorted str_le
      (distinct (filter (λ h. not (h == "")) (map strip (split b',' (Option.get_or raw "")))))

-- `_max_age_days`, of the variable's value
unfoldable pub max_age_days : Platform → Option String → ℕ
max_age_days platform raw = elim (int_of_text platform (Option.get_or raw "")) [
  | some (pos n) ↦ max n 1
  | some (negsuc n) ↦ 1
  | none ↦ 30
]

pub record Settings : Type 0 where
  pub uid : ℕ
  pub gid : ℕ
  pub build_allow : List String
  pub max_age_days : ℕ
  -- `self.guest_dir / filename`
  pub helper_path : String → FilePath
  -- SANDBOXSH_KEEP_BUILDER is 1
  pub keep_failed : Bool
