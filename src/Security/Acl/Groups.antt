-- ===== src/Security/Acl/Groups.antt =====
-- What the two loops of `build_acl_policy` open: the groups, against the entries they come from.
use derico_sandbox.Config.Firewall.{FirewallEntry}
use derico_sandbox.Errors.{
  >>=-eq-ok, Result, Result-cases, err, is_handled, ok, ok_injective, Error,
}
use derico_sandbox.Platform.{Platform}
use derico_sandbox.Prelude.{
  Bool, Bool-cases, List, String, [], any, ap, arith, contains, contains-insert, eq_iff, false, inl,
  inr, insert, nat_Eq, refl, string_Eq, sym, true, ℕ, ◌&&◌, ◌==◌, ◌||◌, ◌↔◌, ◌∙◌, ◌∷◌, ◌≡◌, ◌++◌,
  ◌≢◌,
}
use derico_sandbox.Security.Acl.{
  Gathered, Group, add_entry, add_group, gather_project, gather_trusted, open_entry, ports_eq,
  update,
}
use derico_sandbox.Security.Hosts.{Lookup, resolve_host, validate_all}

abbrev resolves_to : Result (List String) → String → Bool
resolves_to (ok addresses) a = contains addresses a
resolves_to (err e) a = false

module _ (q : String) (n : ℕ) (a : String) where
  -- Some group opens the address at this protocol and port.
  abbrev pub opens : List Group → Bool
  opens gs = any (λ (g : Group). g.protocol == q && contains g.ports n && contains g.addresses a) gs

  -- The entry names this protocol and port, and its host resolves to the address.
  abbrev pub entry_opens : Platform → (String → Lookup) → FirewallEntry → Bool
  entry_opens platform getaddrinfo e =
      e.protocol == q
      && contains e.ports n
      && resolves_to (resolve_host platform getaddrinfo e.host) a

abbrev pub skipped : FirewallEntry → Gathered → Gathered
skipped e s = record s { unresolved = s.unresolved ++ e.host ∷ [] }

pub not_both {ℓ} : {A : Type ℓ} {r : Result A} {x : Error} {a : A} → r ≡ err x → r ≢ ok a
not_both p q = cc

ports_eq_iff : (ps qs : List ℕ) → (ports_eq ps qs ≡ true) ↔ (ps ≡ qs)
unfolding ports_eq
ports_eq_iff [] [] = (λ h. refl, λ h. refl)
ports_eq_iff [] (q ∷ qs) = (λ h. absurd (ground arith), λ h. cc)
ports_eq_iff (p ∷ ps) [] = (λ h. absurd (ground arith), λ h. cc)
ports_eq_iff (p ∷ ps) (q ∷ qs) =
    (λ h. ground (arith, ports_eq_iff ps qs), λ h. ground (arith, ports_eq_iff ps qs))

contains-update :
    (s xs : List String) (a : String) → contains (update s xs) a ≡ (contains s a || contains xs a)
unfolding update
contains-update s [] a = ground arith
contains-update s (x ∷ xs) a =
    ground (arith, contains-update (insert x s) xs a, contains-insert x a s)

and_left : (x y : Bool) → (x && y) ≡ true → x ≡ true
and_left x y h = ground arith

and_right : (x y : Bool) → (x && y) ≡ true → y ≡ true
and_right x y h = ground arith

or_assoc : (x y z : Bool) → (x || (y || z)) ≡ ((x || y) || z)
or_assoc x y z = ground arith

join_opens : (x u v r : Bool) → ((x && (u || v)) || r) ≡ (((x && u) || r) || (x && v))
join_opens x u v r = ground arith

module _ (q : String) (n : ℕ) (a : String) where
  opens-add_group :
      (p : String) (ps : List ℕ) (addresses : List String) (gs : List Group)
      → opens q n a (add_group p ps addresses gs)
        ≡ (opens q n a gs || (p == q && contains ps n && contains addresses a))
  unfolding add_group
  opens-add_group p ps addresses [] = ground (arith, contains-update [] addresses a)
  opens-add_group p ps addresses (g ∷ gs) =
      elim (Bool-cases (g.protocol == p && ports_eq g.ports ps)) [
        | inl same ↦
            let protocol : g.protocol ≡ p = (eq_iff g.protocol p).0 (and_left _ _ same) in
            let ports : g.ports ≡ ps = (ports_eq_iff g.ports ps).0 (and_right _ _ same) in
            rw same (
              rw (protocol, ports, contains-update g.addresses addresses a)
                (join_opens (p == q && contains ps n) _ _ (opens q n a gs)))
        | inr other ↦ rw other (rw (opens-add_group p ps addresses gs) (search or_assoc))
      ]

  module _ (platform : Platform) (getaddrinfo : String → Lookup) where
    open_entry-opens :
        (e : FirewallEntry) (addresses : List String) (s t : Gathered)
        → resolve_host platform getaddrinfo e.host ≡ ok addresses
        → open_entry platform getaddrinfo e addresses s ≡ ok t
        → opens q n a t.grouped
          ≡ (opens q n a s.grouped || entry_opens q n a platform getaddrinfo e)
    unfolding open_entry add_entry
    open_entry-opens e addresses s t r h =
        let (_, valid, done) =
          >>=-eq-ok (validate_all platform e.allow_private e.host addresses) _ h in
        rw r (
          ap (λ (u : Gathered). opens q n a u.grouped) (sym (ok_injective done))
          ∙ opens-add_group e.protocol e.ports addresses s.grouped)

    pub gather_project-opens :
        (es : List FirewallEntry) (s t : Gathered)
        → gather_project platform getaddrinfo es s ≡ ok t
        → opens q n a t.grouped
          ≡ (opens q n a s.grouped || any (entry_opens q n a platform getaddrinfo) es)
    unfolding gather_project
    gather_project-opens [] s t h = ground arith
    gather_project-opens (e ∷ es) s t h =
        let (addresses, r, h1) = >>=-eq-ok (resolve_host platform getaddrinfo e.host) _ h in
        let (u, opened, rest) = >>=-eq-ok (open_entry platform getaddrinfo e addresses s) _ h1 in
        ground (arith, gather_project-opens es u t rest, open_entry-opens e addresses s u r opened)

    pub gather_trusted-opens :
        (es : List FirewallEntry) (s t : Gathered)
        → gather_trusted platform getaddrinfo es s ≡ ok t
        → opens q n a t.grouped
          ≡ (opens q n a s.grouped || any (entry_opens q n a platform getaddrinfo) es)
    unfolding gather_trusted
    gather_trusted-opens [] s t h = ground arith
    gather_trusted-opens (e ∷ es) s t h =
        elim (Result-cases (resolve_host platform getaddrinfo e.host)) [
          | inl (addresses, r) ↦
              let h1 = rw (r, gather_trusted) at h in
              let (u, opened, rest) =
                >>=-eq-ok (open_entry platform getaddrinfo e addresses s) _ h1 in
              ground
                (arith, gather_trusted-opens es u t rest, open_entry-opens e addresses s u r opened)
          | inr (x, r) ↦ elim (Bool-cases (is_handled x)) [
            | inl handled ↦ ground (
              arith,
              gather_trusted-opens es (skipped e s) t (rw (r, gather_trusted, handled) at h),
            )
            | inr crashed ↦ let raised = rw (r, gather_trusted, crashed) at h in cc
          ]
        ]
