-- ===== src/Config/Ports/Accepted.antt =====
-- What `_parse_ports` accepts.
use mathlib.Core.Path.{subst}
use derico_sandbox.Prelude.Sort.{
  All-sorted, IsSorted, select-sorted-IsDistinct, sorted, sorted-IsSorted,
}
use derico_sandbox.Prelude.{
  ℕ, suc, ◌≤◌, String, List, [], ◌∷◌, ◌≡◌, refl, ◌↔◌, true, false, arith, nat_Eq, IsDistinct, All,
  select, IsFresh, IsFresh-cons, string_Eq,
}
use derico_sandbox.Prelude.Dict.{Dict, get, values}
use derico_sandbox.Errors.{ok, >>=-eq-ok, ok_injective}
use derico_sandbox.Json.{Value, obj, fields}
use derico_sandbox.Platform.{Platform}
use derico_sandbox.Config.Ports.{
  PortMapping, parse_port, parse_port_mapping, parse_mappings, parse_mapping_object,
  check_duplicates, tailnet_flag, int_of, check_port, by_guest, entries_of, parse_ports,
}

-- A port is between 1 and 65535.
abbrev pub InRange : ℕ → Type 0
InRange n = (1 ≤ n) × (n ≤ 65535)

-- What `check_port` lets through.
pub parse_port-InRange :
    (platform : Platform) (value : Value) (label : String) (n : ℕ)
    → parse_port platform value label ≡ ok n
    → InRange n
unfolding parse_port int_of check_port
parse_port-InRange platform value label n h = ground arith

abbrev MappingInRange : PortMapping → Type 0
MappingInRange m = InRange m.guest × InRange m.host

parse_mapping_object-InRange :
    (platform : Platform) (d : Dict String Value) (index : ℕ) (m : PortMapping)
    → parse_mapping_object platform d index ≡ ok m
    → MappingInRange m
unfolding parse_mapping_object tailnet_flag
parse_mapping_object-InRange platform d index m h = grind (arith, parse_port-InRange)

parse_port_mapping-InRange :
    (platform : Platform) (value : Value) (index : ℕ) (m : PortMapping)
    → parse_port_mapping platform value index ≡ ok m
    → MappingInRange m
unfolding parse_port_mapping
parse_port_mapping-InRange platform (obj fs) index m h =
    parse_mapping_object-InRange platform (fields fs) index m h
parse_port_mapping-InRange platform value index m h = grind (arith, parse_port-InRange)

parse_mappings-InRange :
    (platform : Platform) (values : List Value) (index : ℕ) (ms : List PortMapping)
    → parse_mappings platform values index ≡ ok ms
    → All MappingInRange ms
unfolding parse_mappings
parse_mappings-InRange platform [] index [] h = tt
parse_mappings-InRange platform [] index (m ∷ ms) h = cc
parse_mappings-InRange platform (v ∷ vs) index [] h = ground arith
parse_mappings-InRange platform (v ∷ vs) index (m ∷ ms) h = (
  parse_port_mapping-InRange platform v index m (ground arith),
  parse_mappings-InRange platform vs (suc index) ms (ground arith),
)

abbrev pub guests : List PortMapping → List ℕ
guests = select (λ m. true) (λ m. m.guest)

-- The host ports of the mappings that ask to be published.
abbrev pub published_hosts : List PortMapping → List ℕ
published_hosts = select (λ m. m.tailnet) (λ m. m.host)

abbrev IsDistinctFrom : List ℕ → List ℕ → List PortMapping → Type 0
IsDistinctFrom gs hs ms =
    IsFresh gs (guests ms)
    × IsDistinct (guests ms)
    × IsFresh hs (published_hosts ms)
    × IsDistinct (published_hosts ms)

check_duplicates_sound :
    (gs hs : List ℕ) (ms : List PortMapping)
    → check_duplicates gs hs ms ≡ ok tt
    → IsDistinctFrom gs hs ms
unfolding check_duplicates
check_duplicates_sound gs hs [] h = (tt, tt, tt, tt)
check_duplicates_sound gs hs (m ∷ ms) h = ground (
  arith,
  check_duplicates_sound (m.guest ∷ gs) hs ms,
  check_duplicates_sound (m.guest ∷ gs) (m.host ∷ hs) ms,
  (IsFresh-cons m.guest gs (guests ms)).0,
  (IsFresh-cons m.host hs (published_hosts ms)).0,
)

check_duplicates_complete :
    (gs hs : List ℕ) (ms : List PortMapping)
    → IsDistinctFrom gs hs ms
    → check_duplicates gs hs ms ≡ ok tt
unfolding check_duplicates
check_duplicates_complete gs hs [] h = refl
check_duplicates_complete gs hs (m ∷ ms) h = ground (
  arith,
  check_duplicates_complete (m.guest ∷ gs) hs ms,
  check_duplicates_complete (m.guest ∷ gs) (m.host ∷ hs) ms,
  (IsFresh-cons m.guest gs (guests ms)).1,
  (IsFresh-cons m.host hs (published_hosts ms)).1,
)

nothing_seen : (ns : List ℕ) → IsFresh [] ns
nothing_seen [] = tt
nothing_seen (n ∷ ns) = (refl, nothing_seen ns)

by_guest_total : (a b : PortMapping) → by_guest a b ≡ false → by_guest b a ≡ true
by_guest_total a b h = ground arith

by_guest_trans :
    (a b c : PortMapping) → by_guest a b ≡ true → by_guest b c ≡ true → by_guest a c ≡ true
by_guest_trans a b c h k = ground arith

-- A list of ports that the loader accepts.
pub record IsValid (ms : List PortMapping) : Type 0 where
  pub guests_distinct : IsDistinct (guests ms)
  pub hosts_distinct : IsDistinct (published_hosts ms)
  pub in_range : All MappingInRange ms
  pub in_order : IsSorted by_guest ms

sorted-IsValid :
    (ms : List PortMapping)
    → IsDistinctFrom [] [] ms
    → All MappingInRange ms
    → IsValid (sorted by_guest ms)
sorted-IsValid ms h r = record {
  guests_distinct = select-sorted-IsDistinct by_guest (λ m. true) (λ m. m.guest) ms h.1;
  hosts_distinct = select-sorted-IsDistinct by_guest (λ m. m.tailnet) (λ m. m.host) ms h.3;
  in_range = All-sorted by_guest MappingInRange ms r;
  in_order = sorted-IsSorted by_guest by_guest_total by_guest_trans ms;
}

-- If the configuration's "ports" are accepted, the guest ports are distinct, so are the host ports of
-- the mappings to publish, every port is between 1 and 65535, and the list is sorted by guest port.
pub parse_ports-IsValid :
    (platform : Platform) (d : Dict String Value) (ms : List PortMapping)
    → parse_ports platform d ≡ ok ms
    → IsValid ms
unfolding parse_ports
parse_ports-IsValid platform d ms h =
    let (values, given, rest) = >>=-eq-ok (entries_of (get d "ports")) _ h in
    let (parsed, read, rest') = >>=-eq-ok (parse_mappings platform values 0) _ rest in
    let (_, unique, done) = >>=-eq-ok (check_duplicates [] [] parsed) _ rest' in
    subst IsValid (ok_injective done) (
      sorted-IsValid parsed (check_duplicates_sound [] [] parsed unique)
        (parse_mappings-InRange platform values 0 parsed read))

-- The entries of "ports" that are read one by one are accepted exactly when their guest ports are
-- distinct and the host ports of those to publish are; the result then is these entries, sorted.
pub parse_ports_iff :
    (platform : Platform) (d : Dict String Value) (values : List Value) (ms : List PortMapping)
    → entries_of (get d "ports") ≡ ok values
    → parse_mappings platform values 0 ≡ ok ms
    → (parse_ports platform d ≡ ok (sorted by_guest ms))
      ↔ (IsDistinct (guests ms) × IsDistinct (published_hosts ms))
unfolding parse_ports
parse_ports_iff platform d values ms given read =
    rw (given, read)
      (
        λ h.
            let (_, unique, _) = >>=-eq-ok (check_duplicates [] [] ms) _ h in
            let facts = check_duplicates_sound [] [] ms unique in (facts.1, facts.3),
        λ h. rw (
            check_duplicates_complete [] [] ms
              (nothing_seen (guests ms), h.0, nothing_seen (published_hosts ms), h.1)),
      )
