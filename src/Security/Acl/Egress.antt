-- ===== src/Security/Acl/Egress.antt =====
-- What the policy of `build_acl_policy` lets through.
use derico_sandbox.Config.Firewall.{FirewallEntry}
use derico_sandbox.Config.Project.{ProjectConfig, instance_name, guest_ports}
use derico_sandbox.Errors.{>>=-eq-ok, ok, ok_injective}
use derico_sandbox.Host.{Host}
use derico_sandbox.Platform.{Platform}
use derico_sandbox.Prelude.{
  All, All-append, All-unappend, Bool, Bool-cases, List, Option, String, [], any, any-append, ap,
  arith, false, inl, inr, map, not, refl, sym, true, ℕ, ◌++◌, ◌||◌, ◌∙◌, ◌∷◌, ◌≡◌,
}
use derico_sandbox.Prelude.Sort.{All-sorted, sorted}
use derico_sandbox.Security.Acl.{
  AclPolicy, Gathered, Group, Rule, allow_all, allow_egress, allow_ingress, build_acl_policy,
  closed_policy, egress_rule, gather_project, gather_trusted, group_le, nothing_gathered,
  open_policy,
}
use derico_sandbox.Security.Acl.Destinations.{
  IsPermitted, gather_project-IsPermitted, gather_trusted-IsPermitted,
}
use derico_sandbox.Security.Acl.Groups.{entry_opens, gather_project-opens, gather_trusted-opens}
use derico_sandbox.Security.Acl.Rules.{
  IsPlain, any-map-egress_rule, any-sorted, gather_project-HasPlain, gather_trusted-HasPlain,
  rule_opens,
}
use derico_sandbox.Security.Endpoints.{EndpointsFile, default_endpoints, host_endpoints}
use derico_sandbox.Security.Hosts.{Lookup}
use mathlib.Core.Path.{subst}

abbrev pub is_allow_all : Rule → Bool
is_allow_all allow_all = true
is_allow_all (allow_egress destination protocol ports) = false
is_allow_all (allow_ingress ports source) = false

any_allow_all-map : (gs : List Group) → any is_allow_all (map egress_rule gs) ≡ false
unfolding egress_rule
any_allow_all-map [] = refl
any_allow_all-map (g ∷ gs) = any_allow_all-map gs

module _ (platform : Platform) (host : Host) (getaddrinfo : String → Lookup) (file : EndpointsFile)
    (config : ProjectConfig) (gateway : Option String) where
  closed-cases :
      (p : AclPolicy)
      → config.firewall_enabled ≡ true
      → build_acl_policy platform host getaddrinfo file config gateway ≡ ok p
      → (extra : List FirewallEntry) × (trusted : Gathered) × (gathered : Gathered)
        × (host_endpoints platform file ≡ ok extra)
        × (gather_trusted platform getaddrinfo (default_endpoints ++ extra) nothing_gathered
            ≡ ok trusted)
        × (gather_project platform getaddrinfo config.firewall_allow trusted ≡ ok gathered)
        × (closed_policy platform config gateway gathered ≡ ok p)
  unfolding build_acl_policy closed_policy instance_name guest_ports
  closed-cases p enabled h =
      let h0 = rw enabled at h in
      let (extra, read, h1) = >>=-eq-ok (host_endpoints platform file) _ h0 in
      let (trusted, first, h2) =
        >>=-eq-ok
          (gather_trusted platform getaddrinfo (default_endpoints ++ extra) nothing_gathered) _
          h1 in
      let (gathered, second, done) =
        >>=-eq-ok (gather_project platform getaddrinfo config.firewall_allow trusted) _ h2 in
      (extra, trusted, gathered, read, first, second, done)

  closed_policy-egress :
      (s : Gathered) (p : AclPolicy)
      → closed_policy platform config gateway s ≡ ok p
      → p.egress ≡ map egress_rule (sorted group_le s.grouped)
  unfolding closed_policy
  closed_policy-egress s p h =
      let (name, named, done) = >>=-eq-ok (instance_name platform config) _ h in
      sym (ap (λ (q : AclPolicy). q.egress) (ok_injective done))

  -- A policy holds a rule that lets everything out exactly when the project turns its firewall off, and
  -- then the host allows open networks.
  pub build_acl_policy-allow_all :
      (p : AclPolicy)
      → build_acl_policy platform host getaddrinfo file config gateway ≡ ok p
      → (any is_allow_all p.egress ≡ not config.firewall_enabled)
        × (config.firewall_enabled ≡ false → host.allow_open_network ≡ true)
  unfolding build_acl_policy open_policy
  build_acl_policy-allow_all p h = elim (Bool-cases config.firewall_enabled) [
    | inl on ↦
        let (extra, trusted, gathered, read, first, second, done) = closed-cases p on h in
        (
          rw (on, closed_policy-egress gathered p done)
              (any_allow_all-map (sorted group_le gathered.grouped)),
          λ off. absurd (ground arith),
        )
    | inr off ↦ elim (Bool-cases host.allow_open_network) [
      | inl allowed ↦
          let h0 = rw (off, allowed) at h in
          (
            rw off (sym (ap (λ (q : AclPolicy). any is_allow_all q.egress) (ok_injective h0))),
            λ _. allowed,
          )
      | inr blocked ↦ let h0 = rw (off, blocked) at h in cc
    ]
  ]

  closed-egress :
      (p : AclPolicy) (extra : List FirewallEntry) (trusted gathered : Gathered) (q : String)
      (n : ℕ) (a : String)
      → gather_trusted platform getaddrinfo (default_endpoints ++ extra) nothing_gathered
        ≡ ok trusted
      → gather_project platform getaddrinfo config.firewall_allow trusted ≡ ok gathered
      → closed_policy platform config gateway gathered ≡ ok p
      → All (IsPlain platform getaddrinfo) (default_endpoints ++ extra)
      → All (IsPlain platform getaddrinfo) config.firewall_allow
      → any (rule_opens q n a) p.egress
        ≡ any
            (entry_opens q n a platform getaddrinfo)
            ((default_endpoints ++ extra) ++ config.firewall_allow)
  closed-egress p extra trusted gathered q n a first second done plain plain' =
      ap (any (rule_opens q n a)) (closed_policy-egress gathered p done)
      ∙ any-map-egress_rule q n a (sorted group_le gathered.grouped) (
          All-sorted group_le _ gathered.grouped (
            gather_project-HasPlain platform getaddrinfo config.firewall_allow trusted gathered
              plain'
              (gather_trusted-HasPlain platform getaddrinfo (default_endpoints ++ extra)
                nothing_gathered trusted plain tt first)
              second))
      ∙ any-sorted group_le _ gathered.grouped
      ∙ gather_project-opens q n a platform getaddrinfo config.firewall_allow trusted gathered
          second
      ∙ ap (λ b. b || any (entry_opens q n a platform getaddrinfo) config.firewall_allow)
          (gather_trusted-opens q n a platform getaddrinfo (default_endpoints ++ extra)
            nothing_gathered trusted first)
      ∙ sym (
          any-append (entry_opens q n a platform getaddrinfo) (default_endpoints ++ extra)
            config.firewall_allow)

  -- With the firewall on, the outgoing rules of the policy let traffic out to an address at a protocol and
  -- a port exactly when some built-in, host-wide or project endpoint has the protocol and the port and its
  -- host resolves to the address, if no resolved address is empty or has a comma. A rule is read as its
  -- texts: the destination holds the address and the ports the printed port, each between commas.
  pub build_acl_policy-egress :
      (p : AclPolicy) (extra : List FirewallEntry) (q : String) (n : ℕ) (a : String)
      → config.firewall_enabled ≡ true
      → host_endpoints platform file ≡ ok extra
      → build_acl_policy platform host getaddrinfo file config gateway ≡ ok p
      → All (IsPlain platform getaddrinfo) ((default_endpoints ++ extra) ++ config.firewall_allow)
      → any (rule_opens q n a) p.egress
        ≡ any
            (entry_opens q n a platform getaddrinfo)
            ((default_endpoints ++ extra) ++ config.firewall_allow)
  build_acl_policy-egress p extra q n a enabled known h plain =
      let (extra', trusted, gathered, read, first, second, done) = closed-cases p enabled h in
      let same : extra' ≡ extra = ok_injective (sym read ∙ known) in
      let (own, allowed) =
        All-unappend (IsPlain platform getaddrinfo) (default_endpoints ++ extra)
          config.firewall_allow plain in
      closed-egress p extra trusted gathered q n a
        (ap (λ es. gather_trusted platform getaddrinfo (default_endpoints ++ es) nothing_gathered)
            (sym same)
          ∙ first)
        second done own allowed

  -- With the firewall on, every address that an endpoint of any of the three kinds resolves to is that of a
  -- network that is not loopback, link-local, multicast, unspecified or reserved, and that is global unless
  -- the endpoint has `allow_private`.
  pub build_acl_policy-IsPermitted :
      (p : AclPolicy) (extra : List FirewallEntry)
      → config.firewall_enabled ≡ true
      → host_endpoints platform file ≡ ok extra
      → build_acl_policy platform host getaddrinfo file config gateway ≡ ok p
      → All
          (IsPermitted platform getaddrinfo)
          ((default_endpoints ++ extra) ++ config.firewall_allow)
  build_acl_policy-IsPermitted p extra enabled known h =
      let (extra', trusted, gathered, read, first, second, done) = closed-cases p enabled h in
      subst
        (λ es.
          All (IsPermitted platform getaddrinfo)
            ((default_endpoints ++ es) ++ config.firewall_allow))
        (ok_injective (sym read ∙ known))
        (All-append _ (default_endpoints ++ extra') config.firewall_allow
          (gather_trusted-IsPermitted platform getaddrinfo (default_endpoints ++ extra')
            nothing_gathered trusted first)
          (gather_project-IsPermitted platform getaddrinfo config.firewall_allow trusted gathered
            second))
