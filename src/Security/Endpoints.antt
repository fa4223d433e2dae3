-- ===== src/Security/Endpoints.antt =====
-- security.py: `DEFAULT_ENDPOINTS`, and `host_endpoints`, the trusted policy of the host.
use derico_sandbox.Config.Firewall.{FirewallEntry, parse_entries}
use derico_sandbox.Errors.{
  Result, config_error, endpoints_not_array, err, invalid_endpoint, ok, security_error,
  unreadable_endpoints, unsupported_endpoints,
}
use derico_sandbox.Json.{Value, arr, bool, fields, finite, int, items, obj, real}
use derico_sandbox.Platform.{Platform}
use derico_sandbox.Prelude.{
  Bool, List, Option, String, [], false, if◌then◌else◌, nat_Eq, none, some, string_Eq, suc, true,
  zero, ℕ, ◌∷◌,
}
use derico_sandbox.Prelude.Dict.{get}
use derico_sandbox.Prelude.Int.{pos}

unfoldable pub plain_entry : String → List ℕ → FirewallEntry
plain_entry host ports = record {
  host = host;
  ports = ports;
  protocol = "tcp";
  allow_private = false;
}

abbrev pub https : String → FirewallEntry
https host = plain_entry host (443 ∷ [])

unfoldable pub default_endpoints : List FirewallEntry
default_endpoints =
    https "api.anthropic.com"
    ∷ https "statsig.anthropic.com"
    ∷ https "claude.ai"
    ∷ https "downloads.claude.ai"
    ∷ https "pi.dev"
    ∷ https "api.openai.com"
    ∷ https "auth.openai.com"
    ∷ https "chatgpt.com"
    ∷ https "api.mistral.ai"
    ∷ https "api.firecrawl.dev"
    ∷ plain_entry "github.com" (22 ∷ 443 ∷ [])
    ∷ https "api.github.com"
    ∷ https "codeload.github.com"
    ∷ https "objects.githubusercontent.com"
    ∷ https "raw.githubusercontent.com"
    ∷ https "registry.npmjs.org"
    ∷ https "pypi.org"
    ∷ https "files.pythonhosted.org"
    ∷ https "astral.sh"
    ∷ plain_entry "deb.debian.org" (80 ∷ 443 ∷ [])
    ∷ plain_entry "security.debian.org" (80 ∷ 443 ∷ [])
    ∷ https "deb.nodesource.com"
    ∷ https "dl.google.com"
    ∷ https "cdn.playwright.dev"
    ∷ https "playwright.download.prss.microsoft.com"
    ∷ https "download.docker.com"
    ∷ https "registry-1.docker.io"
    ∷ https "auth.docker.io"
    ∷ https "production.cloudflare.docker.com"
    ∷ https "production.cloudfront.docker.com"
    ∷ https "impeccable.style"
    ∷ []

-- `endpoints.json`: missing, not to be read or decoded, or what it holds.
pub data EndpointsFile : Type 0 where
  no_file bad_file : EndpointsFile
  document : Value → EndpointsFile

-- `data.get("version") == 1`, which `True` and `1.0` pass. (A float is kept as its part before the point,
-- so one with a fraction is read as the number below it.)
unfoldable pub is_version_one : Option Value → Bool
is_version_one (some (int (pos (suc zero)))) = true
is_version_one (some (bool b)) = b
is_version_one (some (real (finite (pos (suc zero))))) = true
is_version_one _ = false

-- Only a `ConfigError` of an entry gets a new message; a crash passes through.
unfoldable pub relabel : Result (List FirewallEntry) → Result (List FirewallEntry)
relabel (err (config_error e)) = err (security_error (invalid_endpoint e))
relabel r = r

unfoldable pub listed_endpoints : Platform → Value → Result (List FirewallEntry)
listed_endpoints platform (arr vs) = relabel (parse_entries platform (items vs) 0 "allow")
listed_endpoints platform _ = err (security_error endpoints_not_array)

unfoldable pub host_endpoints : Platform → EndpointsFile → Result (List FirewallEntry)
host_endpoints platform no_file = ok []
host_endpoints platform bad_file = err (security_error unreadable_endpoints)
host_endpoints platform (document (obj fs)) =
    let d = fields fs in
    let read : Result (List FirewallEntry) = elim (get d "allow") [
      | none ↦ ok []
      | some v ↦ listed_endpoints platform v
    ] in
    if is_version_one (get d "version") then read else err (security_error unsupported_endpoints)
host_endpoints platform (document _) = err (security_error unsupported_endpoints)
