-- ===== src/Security/Registry/Holders.antt =====
-- Who holds a host port, after a claim and after a release.
use mathlib.Core.Path.{subst}
use derico_sandbox.Config.Project.{ProjectConfig, project_key}
use derico_sandbox.Errors.{ok, Result-cases}
use derico_sandbox.Platform.{Platform}
use mathlib.Core.Option
use derico_sandbox.Config.Ports.{PortMapping}
use derico_sandbox.Prelude.{
  IsDistinct, List, Option, String, [], arith, contains, eq_iff, false, if◌then◌else◌, map, nat_Eq,
  none, not, refl, some, string_Eq, ◌&&◌, ◌==◌, ◌||◌, ◌∷◌, ◌≡◌, All, Option-cases, inl, inr, ◌∙◌,
  ◌≢◌, Bool-cases, ap, is_empty, sym, distinct, is_empty_nil,
}
use derico_sandbox.Prelude.Decimal.{show}
use derico_sandbox.Prelude.Dict.{
  Dict, get, put, remove, keys, contains-keys-put, get-put, get-remove, put-IsDistinct,
}
use derico_sandbox.Security.Registry.{
  load_registry, stored, Owner, Registry, claim_ports, claimed, delete_ports, stale_ports,
  wanted_ports, RegistryFile, check_owners, claim_host_ports, foreign_owner, owned_ports,
  release_host_ports, claimant,
}

-- The project that holds a port.
abbrev pub holder : Registry → String → Option String
holder ports port = Option.map (λ (o : Owner). o.project) (get ports port)

get-delete_ports :
    (ports : Registry) (ps : List String) (j : String)
    → get (delete_ports ports ps) j ≡ (if contains ps j then none else get ports j)
unfolding delete_ports
get-delete_ports ports [] j = refl
get-delete_ports ports (p ∷ ps) j =
    rw (get-delete_ports (remove ports p) ps j, get-remove ports p j) (ground arith)

contains-keys-wanted_ports :
    (ms : List PortMapping) (wanted : Dict String PortMapping) (j : String)
    → contains (keys (wanted_ports ms wanted)) j
      ≡ (contains (map (λ (m : PortMapping). show m.host) ms) j || contains (keys wanted) j)
unfolding wanted_ports
contains-keys-wanted_ports [] wanted j = refl
contains-keys-wanted_ports (m ∷ ms) wanted j =
    rw (contains-keys-wanted_ports ms _ j, contains-keys-put wanted (show m.host) j m)
      (ground arith)

wanted_ports-IsDistinct :
    (ms : List PortMapping) (wanted : Dict String PortMapping)
    → IsDistinct (keys wanted)
    → IsDistinct (keys (wanted_ports ms wanted))
unfolding wanted_ports
wanted_ports-IsDistinct [] wanted h = h
wanted_ports-IsDistinct (m ∷ ms) wanted h =
    wanted_ports-IsDistinct ms _ (put-IsDistinct wanted (show m.host) m h)

-- A key that a list of entries lacks has no value there, and the other way round.
get-eq-none :
    {V : Type 0} (d : Dict String V) (j : String) → contains (keys d) j ≡ false → get d j ≡ none
unfolding get
get-eq-none [] j h = refl
get-eq-none ((k, v) ∷ d) j h = ground (arith, get-eq-none d j)

contains-stale_ports :
    (ports : Registry) (key : String) (wanted : Dict String PortMapping) (j : String)
    → IsDistinct (keys ports)
    → contains (stale_ports ports key wanted) j ≡ elim (get ports j) [
      | some o ↦ o.project == key && not (contains (keys wanted) j)
      | none ↦ false
    ]
unfolding stale_ports get
contains-stale_ports [] key wanted j h = refl
contains-stale_ports ((k, o) ∷ ports) key wanted j h =
    ground (arith, contains-stale_ports ports key wanted j h.1, get-eq-none ports k, eq_iff j k)

-- The holder of a port after the puts of a claim.
holder-claim_ports :
    (ports : Registry) (key name : String) (wanted : Dict String PortMapping) (j : String)
    → holder (claim_ports ports key name wanted) j
      ≡ (if contains (keys wanted) j then some key else holder ports j)
unfolding claim_ports
holder-claim_ports ports key name [] j = refl
holder-claim_ports ports key name ((p, m) ∷ wanted) j =
    let owner : Owner = record { project = key; instance_name = name; guest = m.guest } in
    holder-claim_ports (put ports p owner) key name wanted j
    ∙ ground (arith, get-put ports p j owner)

abbrev pub unless : String → Option String → Option String
unless key none = none
unless key (some p) = if p == key then none else some p

-- The texts of the host ports of a list of mappings.
abbrev pub host_texts : List PortMapping → List String
host_texts = map (λ (m : PortMapping). show m.host)

-- After a claim the project holds the ports that it asked for and no other, and every other port is
-- held as before.
holder-claimed :
    (ports : Registry) (key name : String) (ms : List PortMapping) (j : String)
    → IsDistinct (keys ports)
    → holder (claimed ports key name ms) j
      ≡ (if contains (host_texts ms) j then some key else unless key (holder ports j))
unfolding claimed
holder-claimed ports key name ms j h =
    let wanted = wanted_ports ms [] in
    let stale = stale_ports ports key wanted in
    holder-claim_ports (delete_ports ports stale) key name wanted j
    ∙ ground (
      arith,
      get-delete_ports ports stale j,
      contains-stale_ports ports key wanted j h,
      contains-keys-wanted_ports ms [] j,
    )

pub check_owners_sound :
    (ports : Registry) (key : String) (ms : List PortMapping)
    → check_owners ports key ms ≡ ok tt
    → All (λ m. foreign_owner ports key m ≡ none) ms
unfolding check_owners
check_owners_sound ports key [] h = tt
check_owners_sound ports key (m ∷ ms) h = elim (Option-cases (foreign_owner ports key m)) [
  | inl free ↦ (free, check_owners_sound ports key ms (ground arith))
  | inr (o, taken) ↦ absurd (ground arith)
]

-- A wanted port is held by no other project, if the check passes.
foreign-not-wanted :
    (ports : Registry) (key p : String) (ms : List PortMapping) (j : String)
    → All (λ m. foreign_owner ports key m ≡ none) ms
    → holder ports j ≡ some p
    → p ≢ key
    → contains (host_texts ms) j ≡ false
unfolding foreign_owner
foreign-not-wanted ports key p [] j h held ne = refl
foreign-not-wanted ports key p (m ∷ ms) j h held ne = ground (
  arith,
  foreign-not-wanted ports key p ms j h.1 held ne,
  eq_iff j (show m.host),
  eq_iff p key,
  h.0,
)

stored_injective : (a b : Registry) → stored a ≡ stored b → a ≡ b
stored_injective a b h = cc

module _ (platform : Platform) (config : ProjectConfig) (ms : List PortMapping)
    (file : RegistryFile) where
  pub claim_host_ports-cases :
      (ports : Registry)
      → load_registry file ≡ ok ports
      → (claim_host_ports platform config ms file).0 ≡ ok tt
      → (check_owners ports (project_key config) ms ≡ ok tt)
        × (name : String) × ((claim_host_ports platform config ms file).1
            ≡ stored (claimed ports (project_key config) name ms))
  unfolding claim_host_ports
  claim_host_ports-cases ports read h =
      elim (Result-cases (check_owners ports (project_key config) ms)) [
        | inl (_, pass) ↦ elim (Result-cases (claimant platform config ms)) [
          | inl (name, named) ↦ (pass, name, ground arith)
          | inr (e, failed) ↦ absurd (ground arith)
        ]
        | inr (e, refused) ↦ absurd (ground arith)
      ]

  -- A claim that succeeds: the project then holds exactly the host ports that it asked for, and any
  -- other port is held by the project that held it, unless that was this project.
  pub claim_host_ports-ok :
      (ports : Registry)
      → load_registry file ≡ ok ports
      → IsDistinct (keys ports)
      → (claim_host_ports platform config ms file).0 ≡ ok tt
      → (ports' : Registry) × ((claim_host_ports platform config ms file).1 ≡ stored ports')
        × ((j : String)
            → holder ports' j ≡ (
                if contains (host_texts ms) j
                then some (project_key config)
                else unless (project_key config) (holder ports j)))
  claim_host_ports-ok ports read distinct h =
      let (_, name, left) = claim_host_ports-cases ports read h in
      (
        claimed ports (project_key config) name ms,
        left,
        λ j. holder-claimed ports (project_key config) name ms j distinct,
      )

  -- A claim that succeeds takes no port from another project.
  pub claim_host_ports-keeps_others :
      (ports ports' : Registry) (j p : String)
      → load_registry file ≡ ok ports
      → IsDistinct (keys ports)
      → claim_host_ports platform config ms file ≡ (ok tt, stored ports')
      → holder ports j ≡ some p
      → p ≢ project_key config
      → holder ports' j ≡ some p
  claim_host_ports-keeps_others ports ports' j p read distinct h held other =
      let (pass, name, left) = claim_host_ports-cases ports read (ap (λ r. r.0) h) in
      let key = project_key config in
      let same : claimed ports key name ms ≡ ports' =
        stored_injective _ _ (sym left ∙ ap (λ r. r.1) h) in
      let absent =
        foreign-not-wanted ports key p ms j (check_owners_sound ports key ms pass) held other in
      rw (← same)
        (holder-claimed ports key name ms j distinct ∙ ground (arith, absent, held, eq_iff p key))

contains-owned_ports :
    (ports : Registry) (key j : String)
    → IsDistinct (keys ports)
    → contains (owned_ports ports key) j
      ≡ elim (get ports j) [ some o ↦ o.project == key | none ↦ false ]
unfolding owned_ports get
contains-owned_ports [] key j h = refl
contains-owned_ports ((k, o) ∷ ports) key j h =
    ground (arith, contains-owned_ports ports key j h.1, get-eq-none ports k, eq_iff j k)

module _ (config : ProjectConfig) where
  holder-release :
      (ports : Registry) (j : String)
      → IsDistinct (keys ports)
      → holder (delete_ports ports (owned_ports ports (project_key config))) j
        ≡ unless (project_key config) (holder ports j)
  holder-release ports j h =
      let owned = owned_ports ports (project_key config) in
      ground
        (arith, get-delete_ports ports owned j, contains-owned_ports ports (project_key config) j h)

  -- After a release the project holds no host port, and every port of another project is held as before.
  pub release_host_ports-ok :
      (file : RegistryFile) (ports : Registry)
      → load_registry file ≡ ok ports
      → IsDistinct (keys ports)
      → (ports' : Registry) × (load_registry (release_host_ports config file).1 ≡ ok ports')
        × ((j : String) → holder ports' j ≡ unless (project_key config) (holder ports j))
  unfolding release_host_ports load_registry delete_ports
  release_host_ports-ok file ports read distinct =
      elim (Bool-cases (is_empty (owned_ports ports (project_key config)))) [
        | inl nothing ↦ (
          ports,
          ground arith,
          λ j.
              subst
                (λ l.
                  holder (delete_ports ports l) j ≡ unless (project_key config) (holder ports j))
                (is_empty_nil _ nothing) (holder-release ports j distinct),
        )
        | inr something ↦ (
          delete_ports ports (owned_ports ports (project_key config)),
          ground arith,
          λ j. holder-release ports j distinct,
        )
      ]
