-- ===== src/Security/Acl/Rules.antt =====
-- What a rule of the document opens, as its texts are read.
use derico_sandbox.Platform.{Platform}
use derico_sandbox.Prelude.{
  All, All-append, Bool, Bool-cases, List, String, [], any, arith, contains, eq_iff, false, insert,
  inl, inr, map, nat_Eq, refl, string_Eq, true, ℕ, ◌&&◌, ◌==◌, ◌||◌, ◌∷◌, ◌≡◌,
}
use derico_sandbox.Prelude.Decimal.{all_digits, all_digits-show, show, show-filled, show_injective}
use derico_sandbox.Prelude.Sort.{All-sorted, contains-sorted, insert_sorted, sorted}
use derico_sandbox.Prelude.Split.{IsListable, Lacks, items_of, items_of-join}
use derico_sandbox.Prelude.Text.{any_char, str_le}
use derico_sandbox.Config.Firewall.{FirewallEntry}
use derico_sandbox.Errors.{>>=-eq-ok, Result-cases, is_handled, ok, ok_injective}
use derico_sandbox.Security.Acl.{
  Gathered, Group, Rule, add_entry, add_group, allow_all, allow_egress, allow_ingress, egress_rule,
  gather_project, gather_trusted, open_entry, ports_eq, update,
}
use derico_sandbox.Security.Hosts.{Lookup, resolve_host, validate_all}
use mathlib.Core.Path.{subst}

-- A rule lets traffic out to the address at this protocol and port: its destination and its ports, read as
-- lists that a comma separates, hold them.
abbrev pub rule_opens : String → ℕ → String → Rule → Bool
rule_opens q n a allow_all = true
rule_opens q n a (allow_egress destination protocol ports) =
    protocol == q && contains (items_of ports) (show n) && contains (items_of destination) a
rule_opens q n a (allow_ingress ports source) = false

contains-map-show : (ns : List ℕ) (n : ℕ) → contains (map show ns) (show n) ≡ contains ns n
contains-map-show [] n = refl
contains-map-show (m ∷ ns) n = ground (
  arith,
  contains-map-show ns n,
  show_injective m n,
  show_injective n m,
  eq_iff (show m) (show n),
  eq_iff (show n) (show m),
)

digits-Lacks : (s : String) → all_digits s ≡ true → Lacks b',' s
unfolding any_char
digits-Lacks String.[] h = refl
digits-Lacks (String.◌∷◌ c s) h = ground (arith, digits-Lacks s)

show-IsListable : (n : ℕ) → IsListable (show n)
show-IsListable n = elim (Bool-cases (show n == "")) [
  | inl empty ↦ absurd (show-filled n ((eq_iff (show n) "").0 empty))
  | inr filled ↦ (filled, digits-Lacks (show n) (all_digits-show n))
]

shown-IsListable : (ns : List ℕ) → All IsListable (map show ns)
shown-IsListable [] = tt
shown-IsListable (n ∷ ns) = (show-IsListable n, shown-IsListable ns)

-- The rule of a group opens what the group holds.
rule_opens-egress_rule :
    (q : String) (n : ℕ) (a : String) (g : Group)
    → All IsListable g.addresses
    → rule_opens q n a (egress_rule g)
      ≡ (g.protocol == q && contains g.ports n && contains g.addresses a)
unfolding egress_rule
rule_opens-egress_rule q n a g listable =
    rw
      (
        items_of-join (map show g.ports) (shown-IsListable g.ports),
        items_of-join (sorted str_le g.addresses)
            (All-sorted str_le IsListable g.addresses listable),
        contains-map-show g.ports n,
        contains-sorted str_le g.addresses a,
      )
      refl

any-insert_sorted {ℓ} :
    {A : Type ℓ} (le : A → A → Bool) (p : A → Bool) (a : A) (xs : List A)
    → any p (insert_sorted le a xs) ≡ (p a || any p xs)
unfolding insert_sorted
any-insert_sorted le p a [] = refl
any-insert_sorted le p a (x ∷ xs) = ground (arith, any-insert_sorted le p a xs)

pub any-sorted {ℓ} :
    {A : Type ℓ} (le : A → A → Bool) (p : A → Bool) (xs : List A) → any p (sorted le xs) ≡ any p xs
unfolding sorted
any-sorted le p [] = refl
any-sorted le p (x ∷ xs) =
    ground (arith, any-insert_sorted le p x (sorted le xs), any-sorted le p xs)

pub any-map-egress_rule :
    (q : String) (n : ℕ) (a : String) (gs : List Group)
    → All (λ (g : Group). All IsListable g.addresses) gs
    → any (rule_opens q n a) (map egress_rule gs)
      ≡ any (λ (g : Group). g.protocol == q && contains g.ports n && contains g.addresses a) gs
any-map-egress_rule q n a [] h = refl
any-map-egress_rule q n a (g ∷ gs) h =
    rw (rule_opens-egress_rule q n a g h.0, any-map-egress_rule q n a gs h.1) refl

-- Every address that the entry's host resolves to can stand in a list that a comma separates.
abbrev pub IsPlain : Platform → (String → Lookup) → FirewallEntry → Type 0
IsPlain platform getaddrinfo e =
    (addresses : List String)
    → resolve_host platform getaddrinfo e.host ≡ ok addresses
    → All IsListable addresses

abbrev HasPlain : List Group → Type 0
HasPlain gs = All (λ (g : Group). All IsListable g.addresses) gs

insert-IsListable :
    (x : String) (s : List String) → IsListable x → All IsListable s → All IsListable (insert x s)
insert-IsListable x s h k = elim (Bool-cases (contains s x)) [
  | inl old ↦ rw old k
  | inr new ↦ rw new (All-append IsListable s (x ∷ []) k (h, tt))
]

update-IsListable :
    (s xs : List String) → All IsListable s → All IsListable xs → All IsListable (update s xs)
unfolding update
update-IsListable s [] h k = h
update-IsListable s (x ∷ xs) h k =
    update-IsListable (insert x s) xs (insert-IsListable x s k.0 h) k.1

add_group-HasPlain :
    (p : String) (ps : List ℕ) (addresses : List String) (gs : List Group)
    → All IsListable addresses
    → HasPlain gs
    → HasPlain (add_group p ps addresses gs)
unfolding add_group
add_group-HasPlain p ps addresses [] h k = (update-IsListable [] addresses tt h, tt)
add_group-HasPlain p ps addresses (g ∷ gs) h k =
    elim (Bool-cases (g.protocol == p && ports_eq g.ports ps)) [
      | inl same ↦ rw same (update-IsListable g.addresses addresses k.0 h, k.1)
      | inr other ↦ rw other (k.0, add_group-HasPlain p ps addresses gs h k.1)
    ]

module _ (platform : Platform) (getaddrinfo : String → Lookup) where
  open_entry-HasPlain :
      (e : FirewallEntry) (addresses : List String) (s t : Gathered)
      → All IsListable addresses
      → HasPlain s.grouped
      → open_entry platform getaddrinfo e addresses s ≡ ok t
      → HasPlain t.grouped
  unfolding open_entry add_entry
  open_entry-HasPlain e addresses s t plain k h =
      let (_, valid, done) =
        >>=-eq-ok (validate_all platform e.allow_private e.host addresses) _ h in
      subst (λ (u : Gathered). HasPlain u.grouped) (ok_injective done)
        (add_group-HasPlain e.protocol e.ports addresses s.grouped plain k)

  pub gather_project-HasPlain :
      (es : List FirewallEntry) (s t : Gathered)
      → All (IsPlain platform getaddrinfo) es
      → HasPlain s.grouped
      → gather_project platform getaddrinfo es s ≡ ok t
      → HasPlain t.grouped
  unfolding gather_project
  gather_project-HasPlain [] s t plain k h =
      subst (λ (u : Gathered). HasPlain u.grouped) (ok_injective h) k
  gather_project-HasPlain (e ∷ es) s t plain k h =
      let (addresses, r, h1) = >>=-eq-ok (resolve_host platform getaddrinfo e.host) _ h in
      let (u, opened, rest) = >>=-eq-ok (open_entry platform getaddrinfo e addresses s) _ h1 in
      gather_project-HasPlain es u t plain.1
        (open_entry-HasPlain e addresses s u (plain.0 addresses r) k opened) rest

  pub gather_trusted-HasPlain :
      (es : List FirewallEntry) (s t : Gathered)
      → All (IsPlain platform getaddrinfo) es
      → HasPlain s.grouped
      → gather_trusted platform getaddrinfo es s ≡ ok t
      → HasPlain t.grouped
  unfolding gather_trusted
  gather_trusted-HasPlain [] s t plain k h =
      subst (λ (u : Gathered). HasPlain u.grouped) (ok_injective h) k
  gather_trusted-HasPlain (e ∷ es) s t plain k h =
      elim (Result-cases (resolve_host platform getaddrinfo e.host)) [
        | inl (addresses, r) ↦
            let h1 = rw (r, gather_trusted) at h in
            let (u, opened, rest) =
              >>=-eq-ok (open_entry platform getaddrinfo e addresses s) _ h1 in
            gather_trusted-HasPlain es u t plain.1
              (open_entry-HasPlain e addresses s u (plain.0 addresses r) k opened) rest
        | inr (x, r) ↦ elim (Bool-cases (is_handled x)) [
          | inl handled ↦
              gather_trusted-HasPlain es _ t plain.1 k (rw (r, gather_trusted, handled) at h)
          | inr crashed ↦ let raised = rw (r, gather_trusted, crashed) at h in cc
        ]
      ]
