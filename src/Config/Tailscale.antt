-- ===== src/Config/Tailscale.antt =====
-- config.py: `TailscaleSettings` and `_parse_tailscale`.
use derico_sandbox.Config.Names.{reject_unknown, safe_text}
use derico_sandbox.Errors.{
  Result, bad_tailscale, bad_tailscale_address, bad_tailscale_enabled, config_error, err,
  not_an_address, ok, ◌>>◌, ◌>>=◌,
}
use derico_sandbox.Json.{Value, bool, end, fields, null, obj, text}
use derico_sandbox.Platform.{Platform}
use derico_sandbox.Prelude.{Bool, Option, String, [], nat_Eq, none, some, string_Eq, true, ◌∷◌}
use mathlib.Core.Option
use derico_sandbox.Prelude.Dict.{Dict, get}
use derico_sandbox.Prelude.Text.{strip}

pub record TailscaleSettings : Type 0 where
  pub enabled : Bool
  pub address : Option String

unfoldable pub enabled_flag : Option Value → Result Bool
enabled_flag none = ok true
enabled_flag (some (bool b)) = ok b
enabled_flag (some _) = err (config_error bad_tailscale_enabled)

unfoldable pub parse_address : Platform → Value → Result (Option String)
parse_address platform null = ok none
parse_address platform (text s) = do
  safe_text platform s "tailscale.address"
  elim (platform.ip_address (strip s)) [
    | some a ↦ ok (some a)
    | none ↦ err (config_error (not_an_address s))
  ]
parse_address platform _ = err (config_error bad_tailscale_address)

unfoldable pub parse_tailscale_value : Platform → Value → Result TailscaleSettings
parse_tailscale_value platform (bool b) = ok (record { enabled = b; address = none })
parse_tailscale_value platform (obj fs) = do
  reject_unknown (fields fs) ("enabled" ∷ "address" ∷ []) "tailscale"
  enabled ← enabled_flag (get (fields fs) "enabled")
  address ← parse_address platform (Option.get_or (get (fields fs) "address") null)
  ok (record { enabled = enabled; address = address })
parse_tailscale_value platform _ = err (config_error bad_tailscale)

unfoldable pub parse_tailscale : Platform → Dict String Value → Result TailscaleSettings
parse_tailscale platform d =
    parse_tailscale_value platform (Option.get_or (get d "tailscale") (obj end))
