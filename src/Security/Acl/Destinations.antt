-- ===== src/Security/Acl/Destinations.antt =====
-- Which destinations the two loops of `build_acl_policy` let through, by `_validate_destination`.
use derico_sandbox.Config.Firewall.{FirewallEntry}
use derico_sandbox.Errors.{>>=-eq-ok, Result-cases, is_handled, ok, ok_injective}
use derico_sandbox.Platform.{Platform, Network}
use derico_sandbox.Prelude.{
  All, Bool, Bool-cases, List, String, [], arith, false, inl, inr, nat_Eq, string_Eq, sym, true,
  ◌∙◌, ◌∷◌, ◌≡◌, Option-cases, some,
}
use derico_sandbox.Security.Acl.{Gathered, gather_project, gather_trusted, open_entry}
use derico_sandbox.Security.Hosts.{
  Lookup, resolve_host, validate_all, validate_destination, is_special,
}
use derico_sandbox.Security.Acl.Groups.{not_both, skipped}
use mathlib.Core.Path.{subst}

-- A network for no special use, and a public one unless the entry allows private ones.
abbrev IsOpenTo : Bool → Network → Type 0
IsOpenTo allow_private n =
    (n.is_loopback ≡ false)
    × (n.is_link_local ≡ false)
    × (n.is_multicast ≡ false)
    × (n.is_unspecified ≡ false)
    × (n.is_reserved ≡ false)
    × (allow_private ≡ false → n.is_global ≡ true)

-- The address is that of a network which the entry may name.
abbrev IsDestination : Platform → Bool → String → Type 0
IsDestination platform allow_private a =
    (n : Network) × (platform.ip_network a ≡ some n) × IsOpenTo allow_private n

-- The entry may name every address that its host resolves to.
abbrev pub IsPermitted : Platform → (String → Lookup) → FirewallEntry → Type 0
IsPermitted platform getaddrinfo e =
    (addresses : List String)
    → resolve_host platform getaddrinfo e.host ≡ ok addresses
    → All (IsDestination platform e.allow_private) addresses

module _ (platform : Platform) (getaddrinfo : String → Lookup) where
  allowed-IsOpenTo :
      (allow_private : Bool) (host address : String) (n : Network)
      → platform.ip_network address ≡ some n
      → validate_destination platform allow_private host address ≡ ok tt
      → IsOpenTo allow_private n
  unfolding validate_destination is_special
  allowed-IsOpenTo allow_private host address n known h =
      let h1 = rw (known, validate_destination) at h in ground arith

  validate_destination-IsDestination :
      (allow_private : Bool) (host address : String)
      → validate_destination platform allow_private host address ≡ ok tt
      → IsDestination platform allow_private address
  unfolding validate_destination
  validate_destination-IsDestination allow_private host address h =
      elim (Option-cases (platform.ip_network address)) [
        | inl unknown ↦ let h1 = rw (unknown, validate_destination) at h in cc
        | inr (n, known) ↦ (n, known, allowed-IsOpenTo allow_private host address n known h)
      ]

  validate_all-All :
      (allow_private : Bool) (host : String) (addresses : List String)
      → validate_all platform allow_private host addresses ≡ ok tt
      → All (IsDestination platform allow_private) addresses
  unfolding validate_all
  validate_all-All allow_private host [] h = tt
  validate_all-All allow_private host (a ∷ as_) h =
      let (_, first, rest) = >>=-eq-ok (validate_destination platform allow_private host a) _ h in
      (
        validate_destination-IsDestination allow_private host a first,
        validate_all-All allow_private host as_ rest,
      )

  open_entry-IsPermitted :
      (e : FirewallEntry) (addresses : List String) (s t : Gathered)
      → resolve_host platform getaddrinfo e.host ≡ ok addresses
      → open_entry platform getaddrinfo e addresses s ≡ ok t
      → IsPermitted platform getaddrinfo e
  unfolding open_entry
  open_entry-IsPermitted e addresses s t r h other r' =
      let (_, valid, done) =
        >>=-eq-ok (validate_all platform e.allow_private e.host addresses) _ h in
      subst (λ as_. All (IsDestination platform e.allow_private) as_) (ok_injective (sym r ∙ r'))
        (validate_all-All e.allow_private e.host addresses valid)

  pub gather_project-IsPermitted :
      (es : List FirewallEntry) (s t : Gathered)
      → gather_project platform getaddrinfo es s ≡ ok t
      → All (IsPermitted platform getaddrinfo) es
  unfolding gather_project
  gather_project-IsPermitted [] s t h = tt
  gather_project-IsPermitted (e ∷ es) s t h =
      let (addresses, r, h1) = >>=-eq-ok (resolve_host platform getaddrinfo e.host) _ h in
      let (u, opened, rest) = >>=-eq-ok (open_entry platform getaddrinfo e addresses s) _ h1 in
      (open_entry-IsPermitted e addresses s u r opened, gather_project-IsPermitted es u t rest)

  pub gather_trusted-IsPermitted :
      (es : List FirewallEntry) (s t : Gathered)
      → gather_trusted platform getaddrinfo es s ≡ ok t
      → All (IsPermitted platform getaddrinfo) es
  unfolding gather_trusted
  gather_trusted-IsPermitted [] s t h = tt
  gather_trusted-IsPermitted (e ∷ es) s t h =
      elim (Result-cases (resolve_host platform getaddrinfo e.host)) [
        | inl (addresses, r) ↦
            let h1 = rw (r, gather_trusted) at h in
            let (u, opened, rest) =
              >>=-eq-ok (open_entry platform getaddrinfo e addresses s) _ h1 in
            (
              open_entry-IsPermitted e addresses s u r opened,
              gather_trusted-IsPermitted es u t rest,
            )
        | inr (x, r) ↦ elim (Bool-cases (is_handled x)) [
          | inl handled ↦ (
            λ addresses r'. absurd (not_both r r'),
            gather_trusted-IsPermitted es (skipped e s) t (rw (r, gather_trusted, handled) at h),
          )
          | inr crashed ↦ let raised = rw (r, gather_trusted, crashed) at h in cc
        ]
      ]
