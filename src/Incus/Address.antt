-- ===== src/Incus/Address.antt =====
-- incus.py: `guest_ip`, the address that the VM holds on the bridge.
use derico_sandbox.Config.Load.{str_of}
use derico_sandbox.Incus.Values.{dict_of, elements, is_text, or_empty, truthy}
use derico_sandbox.Json.{Value, fields, obj}
use derico_sandbox.Platform.{Platform}
use derico_sandbox.Prelude.{
  Bool, List, Option, String, [], any, if◌then◌else◌, nat_Eq, none, some, string_Eq, ◌&&◌, ◌==◌,
  ◌||◌, ◌∷◌,
}
use derico_sandbox.Prelude.Dict.{Dict, get}
use derico_sandbox.Prelude.Sort.{sorted}
use derico_sandbox.Prelude.Text.{starts_with, str_le}
use derico_sandbox.Errors.{◌>>=◌, Result, ok}
use derico_sandbox.System.{System}

abbrev is_global_inet : Dict String Value → Bool
is_global_inet address =
    is_text "inet" (get address "family") && is_text "global" (get address "scope")

-- The loop of `_global_ipv4`.
unfoldable pub first_global : List Value → Result (Option Value)
first_global [] = ok none
first_global (v ∷ vs) =
    let rest = first_global vs in
    dict_of v >>= λ address. if is_global_inet address then ok (get address "address") else rest

-- `.get("addresses", [])`, which is iterated
unfoldable pub addresses_field : Option Value → Result (List Value)
addresses_field none = ok []
addresses_field (some v) = elements v

-- `name.startswith(GUEST_LOCAL_INTERFACES)`, or loopback
unfoldable pub is_guest_local : String → Bool
is_guest_local name =
    name == "lo"
    || any (starts_with name) ("docker" ∷ "br-" ∷ "veth" ∷ "virbr" ∷ "cni" ∷ "flannel" ∷ [])

abbrev shown_field : Platform → Option Value → String
shown_field platform none = ""
shown_field platform (some v) = str_of platform v

abbrev as_dict : Option Value → Option (Dict String Value)
as_dict (some (obj fs)) = some (fields fs)
as_dict _ = none

abbrev or_others : Result (Option String) → Option String → Result (Option String)
or_others others none = others
or_others others (some address) = ok (some address)

module _ (system : System) where
  -- The text of an address, where it is not false.
  unfoldable pub shown_address : Option Value → Option String
  shown_address none = none
  shown_address (some v) = if truthy system v then some (str_of system.platform v) else none

  -- `_global_ipv4`
  unfoldable pub global_ipv4 : Value → Result (Option String)
  global_ipv4 interface = do
    d ← or_empty system (some interface)
    addresses ← addresses_field (get d "addresses")
    address ← first_global addresses
    ok (shown_address address)

  -- The interface with the MAC of the NIC.
  unfoldable pub interface_with : String → Dict String Value → Result (Option Value)
  interface_with wanted [] = ok none
  interface_with wanted ((name, interface) ∷ rest) =
      let others = interface_with wanted rest in
      or_empty system (some interface) >>= λ d.
      if system.lower (shown_field system.platform (get d "hwaddr")) == wanted
      then ok (some interface)
      else others

  -- The fallback: the first interface, by name, that has an address and is not the guest's own.
  unfoldable pub first_address : Dict String Value → Result (Option String)
  first_address [] = ok none
  first_address ((name, interface) ∷ rest) =
      let others = first_address rest in
      let own = global_ipv4 interface >>= λ address. or_others others address in
      if is_guest_local name then others else own

  abbrev found_address : Result (Option String) → Option Value → Result (Option String)
  found_address fallback none = fallback
  found_address fallback (some interface) = global_ipv4 interface

  unfoldable pub address_among : String → Dict String Value → Result (Option String)
  address_among wanted interfaces =
      let fallback = first_address (sorted (λ (a b : String × Value). str_le a.0 b.0) interfaces) in
      let matched = interface_with wanted interfaces >>= λ found. found_address fallback found in
      if wanted == "" then fallback else matched

  -- `(record.get("state") or {}).get("network")`, if it is a dictionary
  unfoldable pub interfaces_of : Dict String Value → Result (Option (Dict String Value))
  interfaces_of entry = do
    state ← or_empty system (get entry "state")
    ok (as_dict (get state "network"))

  unfoldable pub interfaces_in : Option (Dict String Value) → Result (Option (Dict String Value))
  interfaces_in none = ok none
  interfaces_in (some entry) = interfaces_of entry
