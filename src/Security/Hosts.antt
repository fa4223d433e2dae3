-- ===== src/Security/Hosts.antt =====
-- security.py: `_hostname`, `resolve_host` and `_validate_destination`.
use derico_sandbox.Errors.{
  Result, bad_firewall_host, cannot_resolve, crash, err, invalid_address, no_addresses, not_public,
  ok, security_error, special_use, unicode_encode_error, ◌>>=◌, ◌>>◌,
}
use derico_sandbox.Platform.{Network, Platform}
use derico_sandbox.Prelude.{
  Bool, List, Option, String, [], distinct, false, if◌then◌else◌, nat_Eq, none, not, some,
  string_Eq, true, ◌&&◌, ◌==◌, ◌||◌, ◌∷◌,
}
use derico_sandbox.Prelude.Sort.{sorted}
use derico_sandbox.Prelude.Text.{
  any_char, ends_with, has_text, is_space, reverse, starts_with, str_le, strip, drop_chars,
}

-- What `socket.getaddrinfo` gives: the addresses of its records, a `gaierror`, or the `UnicodeError` that
-- it raises for a label that IDNA cannot encode, such as an empty or a long one.
pub data Lookup : Type 0 where
  found : List String → Lookup
  gai_error unicode_error : Lookup

abbrev pub is_some {ℓ} : {A : Type ℓ} → Option A → Bool
is_some (some a) = true
is_some none = false

-- `candidate[1:-1]` if it stands in brackets
unfoldable pub strip_brackets : String → String
strip_brackets s =
    if starts_with s "[" && ends_with s "]"
    then reverse (drop_chars 1 (reverse (drop_chars 1 s)))
    else s

-- Not the text of a plain host name.
unfoldable pub is_bad_name : String → Bool
is_bad_name s =
    s == ""
    || has_text s "*"
    || has_text s "://"
    || has_text s "@"
    || has_text s "/"
    || any_char is_space s

unfoldable pub hostname : Platform → String → Result String
hostname platform value =
    let candidate = strip_brackets (strip value) in
    if is_some (platform.ip_network candidate)
    then ok candidate
    else if is_bad_name candidate
    then err (security_error (bad_firewall_host value))
    else ok candidate

-- `(":" in a, a) <= (":" in b, b)`: IPv4 addresses come first.
unfoldable pub address_le : String → String → Bool
address_le a b =
    let v6 = has_text a ":" in
    let w6 = has_text b ":" in
    if not v6 && w6 then true else if v6 && not w6 then false else str_le a b

unfoldable pub addresses_of : String → Lookup → Result (List String)
addresses_of host gai_error = err (security_error (cannot_resolve host))
addresses_of host unicode_error = err (crash unicode_encode_error)
addresses_of host (found []) = err (security_error (no_addresses host))
addresses_of host (found (a ∷ as_)) = ok (sorted address_le (distinct (a ∷ as_)))

unfoldable pub resolve_host : Platform → (String → Lookup) → String → Result (List String)
resolve_host platform getaddrinfo value = do
  host ← hostname platform value
  let looked_up = addresses_of host (getaddrinfo host)
  elim (platform.ip_network host) [ some network ↦ ok (network.rendered ∷ []) | none ↦ looked_up ]

-- The destinations that no entry may name.
unfoldable pub is_special : Network → Bool
is_special n =
    n.is_loopback || n.is_link_local || n.is_multicast || n.is_unspecified || n.is_reserved

unfoldable pub validate_destination : Platform → Bool → String → String → Result (Unit {0})
validate_destination platform allow_private host address = elim (platform.ip_network address) [
  | none ↦ err (security_error (invalid_address host address))
  | some n ↦
      if is_special n
      then err (security_error (special_use host address))
      else if not allow_private && not n.is_global
      then err (security_error (not_public host address))
      else ok tt
]

-- The loop over the addresses of an entry.
unfoldable pub validate_all : Platform → Bool → String → List String → Result (Unit {0})
validate_all platform allow_private host [] = ok tt
validate_all platform allow_private host (a ∷ as_) = do
  validate_destination platform allow_private host a
  validate_all platform allow_private host as_
