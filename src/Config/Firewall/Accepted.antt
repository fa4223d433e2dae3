-- ===== src/Config/Firewall/Accepted.antt =====
-- What `parse_firewall_entry` accepts.
use derico_sandbox.Config.Names.{safe_text}
use derico_sandbox.Prelude.Decimal.{show}
use derico_sandbox.Prelude.Dict.{values}
use derico_sandbox.Config.Ports.{parse_port}
use derico_sandbox.Errors.{>>=-eq-ok, ok, ok_injective}
use derico_sandbox.Json.{Value, arr, cons, items, nil, text}
use derico_sandbox.Platform.{Platform}
use derico_sandbox.Prelude.{
  All, All-append, Bool-cases, IsDistinct, List, String, [], arith, contains, eq_iff, false, inl,
  inr, insert, insert-IsDistinct, is_empty, leb, nat_Eq, refl, string_Eq, sym, true, ℕ, ◌∷◌, ◌≡◌,
  ◌⊎◌, ◌<>◌,
}
use derico_sandbox.Prelude.Sort.{
  IsSorted, All-sorted, insert_sorted, sorted, sorted-IsDistinct, sorted-IsSorted,
}
use mathlib.Core.Path.{subst}
use derico_sandbox.Config.Firewall.{
  FirewallEntry, parse_firewall_entry, parse_port_set, entry_protocol, entry_ports, entry_host,
  entry_private, raw_entry,
}
use derico_sandbox.Config.Ports.Accepted.{InRange, parse_port-InRange}

-- An entry that the loader accepts: an ordered set of ports and one of the two protocols.
pub record IsValid (entry : FirewallEntry) : Type 0 where
  pub some_port : is_empty entry.ports ≡ false
  pub ports_distinct : IsDistinct entry.ports
  pub ports_in_order : IsSorted leb entry.ports
  pub ports_in_range : All InRange entry.ports
  pub protocol : (entry.protocol ≡ "tcp") ⊎ (entry.protocol ≡ "udp")

insert-All : (P : ℕ → Type 0) (n : ℕ) (ns : List ℕ) → P n → All P ns → All P (insert n ns)
insert-All P n ns p h = elim (Bool-cases (contains ns n)) [
  | inl old ↦ rw old h
  | inr new ↦ rw new (All-append P ns (n ∷ []) h (p, tt))
]

insert-nonempty : (n : ℕ) (ns : List ℕ) → is_empty (insert n ns) ≡ false
insert-nonempty n [] = refl
insert-nonempty n (k ∷ ns) = ground arith

parse_port_set_facts :
    (platform : Platform) (vs : List Value) (label : String) (seen ns : List ℕ)
    → parse_port_set platform vs label seen ≡ ok ns
    → IsDistinct seen
    → All InRange seen
    → IsDistinct ns × All InRange ns × (is_empty seen ≡ false → is_empty ns ≡ false)
unfolding parse_port_set
parse_port_set_facts platform [] label seen ns h d r =
    let q = ok_injective h in
    (subst IsDistinct q d, subst (All InRange) q r, λ e. subst (λ l. is_empty l ≡ false) q e)
parse_port_set_facts platform (v ∷ vs) label seen ns h d r =
    let (port, read, rest) = >>=-eq-ok (parse_port platform v label) _ h in
    let facts =
      parse_port_set_facts platform vs label (insert port seen) ns rest
        (insert-IsDistinct port seen d)
        (insert-All InRange port seen (parse_port-InRange platform v label port read) r) in
    (facts.0, facts.1, λ _. facts.2 (insert-nonempty port seen))

parse_port_set-nonempty :
    (platform : Platform) (v : Value) (vs : List Value) (label : String) (ns : List ℕ)
    → parse_port_set platform (v ∷ vs) label [] ≡ ok ns
    → is_empty ns ≡ false
unfolding parse_port_set
parse_port_set-nonempty platform v vs label ns h =
    let (port, read, rest) = >>=-eq-ok (parse_port platform v label) _ h in
    (parse_port_set_facts platform vs label (port ∷ []) ns rest (refl, tt)
        (parse_port-InRange platform v label port read, tt)).2
      refl

entry_protocol_lem :
    (v : Value) (label s : String) → entry_protocol v label ≡ ok s → (s ≡ "tcp") ⊎ (s ≡ "udp")
unfolding entry_protocol
entry_protocol_lem (text t) label s h = ground (arith, eq_iff t "tcp", eq_iff t "udp")
entry_protocol_lem _ label s h = cc

entry_ports_cases :
    (v : Value) (label : String) (vs : List Value)
    → entry_ports v label ≡ ok vs
    → (w : Value) × (ws : List Value) × (vs ≡ w ∷ ws)
unfolding entry_ports
entry_ports_cases (arr nil) label vs h = cc
entry_ports_cases (arr (cons w ws)) label vs h = (w, items ws, sym (ok_injective h))
entry_ports_cases _ label vs h = cc

insert_sorted-nonempty : (n : ℕ) (ns : List ℕ) → is_empty (insert_sorted leb n ns) ≡ false
unfolding insert_sorted
insert_sorted-nonempty n [] = refl
insert_sorted-nonempty n (k ∷ ns) = ground arith

sorted-nonempty : (ns : List ℕ) → is_empty ns ≡ false → is_empty (sorted leb ns) ≡ false
unfolding sorted
sorted-nonempty [] h = cc
sorted-nonempty (n ∷ ns) h = insert_sorted-nonempty n (sorted leb ns)

leb_total : (a b : ℕ) → leb a b ≡ false → leb b a ≡ true
leb_total a b h = ground arith

leb_trans : (a b c : ℕ) → leb a b ≡ true → leb b c ≡ true → leb a c ≡ true
leb_trans a b c h k = ground arith

-- If an entry of an allowlist is accepted, its protocol is tcp or udp, and its ports are a non-empty
-- list of distinct ports between 1 and 65535 in increasing order.
pub parse_firewall_entry-IsValid :
    (platform : Platform) (value : Value) (index : ℕ) (context : String) (entry : FirewallEntry)
    → parse_firewall_entry platform value index context ≡ ok entry
    → IsValid entry
unfolding parse_firewall_entry
parse_firewall_entry-IsValid platform value index context entry h =
    let label = context <> "[" <> show index <> "]" in
    let (raw, _, h1) = >>=-eq-ok (raw_entry value label) _ h in
    let (host, _, h2) = >>=-eq-ok (entry_host raw.host label) _ h1 in
    let (_, _, h3) = >>=-eq-ok (safe_text platform host (label <> ".host")) _ h2 in
    let (protocol, listed, h4) = >>=-eq-ok (entry_protocol raw.protocol label) _ h3 in
    let (_, _, h5) = >>=-eq-ok (entry_private raw.allow_private label) _ h4 in
    let (values, given, h6) = >>=-eq-ok (entry_ports raw.ports label) _ h5 in
    let (parsed, read, done) =
      >>=-eq-ok (parse_port_set platform values (label <> ".ports") []) _ h6 in
    let facts = parse_port_set_facts platform values (label <> ".ports") [] parsed read tt tt in
    let (v, vs, cases) = entry_ports_cases raw.ports label values given in
    subst IsValid (ok_injective done) (record {
      some_port = sorted-nonempty parsed (
          parse_port_set-nonempty platform v vs (label <> ".ports") parsed
            (subst (λ l. parse_port_set platform l (label <> ".ports") [] ≡ ok parsed) cases read));
      ports_distinct = sorted-IsDistinct leb parsed facts.0;
      ports_in_order = sorted-IsSorted leb leb_total leb_trans parsed;
      ports_in_range = All-sorted leb InRange parsed facts.1;
      protocol = entry_protocol_lem raw.protocol label protocol listed;
    })
