-- ===== src/Cli/Ports/Entitled.antt =====
-- What `_publish` publishes is approved on record, and the project holds its host port.
use derico_sandbox.Cli.Ports.Held.{HasDistinctPorts, IsHeld, claim-IsHeld}
use derico_sandbox.Cli.Ports.Untouched.{
  clear-Leaves, drive-Leaves, fixed-Leaves, guest_ip-Leaves, hostname-Leaves, say_all-Leaves,
}
use derico_sandbox.Security.Publications.{approved_publications}
use derico_sandbox.Prelude.Text.{or_none}
use derico_sandbox.Config.Ports.{PortMapping}
use derico_sandbox.Config.Project.{ProjectConfig, project_key, publishable}
use derico_sandbox.Errors.{Result, err, ok}
use derico_sandbox.Incus.Instance.{guest_ip}
use derico_sandbox.Prelude.{
  All, List, String, [], distinct, inl, inr, nat_Eq, refl, string_Eq, true, ◌∷◌, ◌≡◌, Option,
  Bool-cases, map, if◌then◌else◌, is_empty,
}
use derico_sandbox.Security.Ledger.{LedgerFile, granted}
use derico_sandbox.Security.Publications.Recorded.{is_recorded, approved_publications-is_recorded}
use derico_sandbox.Security.Registry.{RegistryFile}
use derico_sandbox.Publish
use derico_sandbox.Publish.{Published}
use derico_sandbox.Cli.Ports.{
  withdraw_all, claim, required_ip, not_published, publications, publish_approved, publish_ports,
  publish_requested, release,
}
use derico_sandbox.System.{State, System, lift, resume, return, ◌>>=◌, ◌>>◌, say_all}
use derico_sandbox.System.Leaves.{
  Returns, Leaves-Returns, lift-Leaves, >>=-Returns, Returns-anything,
}

-- The ledger has the project's approval of the publication.
abbrev IsApproved : ProjectConfig → LedgerFile → PortMapping → Type 0
IsApproved config file m = is_recorded (granted file (project_key config)).publish m ≡ true

module _ (system : System) (config : ProjectConfig) where
  -- What holds of the mappings and the files holds of the endpoints.
  abbrev Entitled : PortMapping → LedgerFile → RegistryFile → Type 0
  Entitled m ledger registry = IsApproved config ledger m × IsHeld config registry m

  abbrev pub AllEntitled : List Published → State → Type 0
  AllEntitled es t = All (λ (e : Published). Entitled e.mapping t.ledger t.registry) es

  abbrev AllGranted : List PortMapping → LedgerFile → RegistryFile → Type 0
  AllGranted ms ledger registry = All (λ m. Entitled m ledger registry) ms

  endpoints-Entitled :
      (bound : String) (name : Option String) (ms : List PortMapping) (t : State)
      → AllGranted ms t.ledger t.registry
      → AllEntitled (map (Publish.endpoint bound name) ms) t
  endpoints-Entitled bound name [] t g = tt
  endpoints-Entitled bound name (m ∷ ms) t g = (g.0, endpoints-Entitled bound name ms t g.1)

  listen-Entitled :
      (guest bound : String) (ms : List PortMapping) (s : State)
      → AllGranted ms s.ledger s.registry
      → Returns AllEntitled (Publish.listen system config guest bound ms s)
  unfolding Publish.listen
  listen-Entitled guest bound ms s g =
      Leaves-Returns (AllGranted ms) AllEntitled (Publish.drive_helper system config guest bound ms)
        (λ _. Publish.hostname system >>= λ name. return (map (Publish.endpoint bound name) ms)) s
        (drive-Leaves system config guest bound ms) g
        (λ _ t g.
          Leaves-Returns (AllGranted ms) AllEntitled (Publish.hostname system)
            (λ name. return (map (Publish.endpoint bound name) ms)) t
            (hostname-Leaves system config) g (λ name u g. endpoints-Entitled bound name ms u g))

  sync-Entitled :
      (guest bound : String) (ms : List PortMapping) (s : State)
      → AllGranted ms s.ledger s.registry
      → Returns AllEntitled (Publish.sync system config guest bound ms s)
  unfolding Publish.sync
  sync-Entitled guest bound [] s g = elim (Bool-cases (Publish.helper_available system)) [
    | inl there ↦ rw there (
        Leaves-Returns (AllGranted []) AllEntitled (Publish.clear system config) (λ _. return []) s
          (clear-Leaves system config) g (λ _ t g. tt))
    | inr gone ↦ rw gone tt
  ]
  sync-Entitled guest bound (m ∷ ms) s g = elim (Bool-cases (Publish.helper_available system)) [
    | inl there ↦ rw there (listen-Entitled guest bound (m ∷ ms) s g)
    | inr gone ↦ rw gone tt
  ]

  -- Behind the claim.
  located-Entitled :
      (ms : List PortMapping) (s : State)
      → AllGranted ms s.ledger s.registry
      → Returns AllEntitled (
          (guest_ip system config >>= λ ip. lift (required_ip ip) >>= λ guest.
          Publish.address system config >>= λ bound. Publish.sync system config guest bound ms)
            s)
  unfolding Publish.address
  located-Entitled ms s g =
      let J = AllGranted ms in
      Leaves-Returns J AllEntitled (guest_ip system config)
        (λ ip. lift (required_ip ip) >>= λ guest.
          Publish.address system config >>= λ bound. Publish.sync system config guest bound ms)
        s (guest_ip-Leaves system config) g
        (λ ip t g.
          Leaves-Returns J AllEntitled (lift (required_ip ip))
            (λ guest.
              Publish.address system config >>= λ bound. Publish.sync system config guest bound ms)
            t (lift-Leaves (required_ip ip)) g
            (λ guest u g.
              Leaves-Returns J AllEntitled
                (Publish.fixed_or_tailnet system (or_none config.tailscale.address))
                (λ bound. Publish.sync system config guest bound ms) u
                (fixed-Leaves system config (or_none config.tailscale.address)) g
                (λ bound v g. sync-Entitled guest bound ms v g)))

  All-both :
      (ms : List PortMapping) (ledger : LedgerFile) (registry : RegistryFile)
      → All (IsApproved config ledger) ms
      → All (IsHeld config registry) ms
      → AllGranted ms ledger registry
  All-both [] ledger registry p q = tt
  All-both (m ∷ ms) ledger registry p q = ((p.0, q.0), All-both ms ledger registry p.1 q.1)

  publish_approved-Entitled :
      (ms : List PortMapping) (s : State)
      → HasDistinctPorts s.registry
      → All (IsApproved config s.ledger) ms
      → Returns AllEntitled (publish_approved system config ms s)
  unfolding publish_approved
  publish_approved-Entitled ms s distinct approved =
      >>=-Returns (λ _ t. (t.ledger ≡ s.ledger) × All (IsHeld config t.registry) ms) AllEntitled
        (claim system config ms s)
        (λ _. guest_ip system config >>= λ ip. lift (required_ip ip) >>= λ guest.
          Publish.address system config >>= λ bound. Publish.sync system config guest bound ms)
        (claim-IsHeld system config ms s distinct)
        (λ _ t h. located-Entitled ms t (All-both ms t.ledger t.registry (rw h.0 approved) h.1))

  withdraw_all-Entitled : (s : State) → Returns AllEntitled (withdraw_all system config s)
  unfolding withdraw_all
  withdraw_all-Entitled s =
      >>=-Returns (λ _ _. Unit {0}) AllEntitled (Publish.clear system config s)
        (λ _. release system config >> return []) (Returns-anything (Publish.clear system config s))
        (λ _ t _.
          >>=-Returns (λ _ _. Unit {0}) AllEntitled (release system config t) (λ _. return [])
            (Returns-anything (release system config t)) (λ _ u _. tt))

  -- Behind the prompts.
  split-Entitled :
      (split : List PortMapping × List PortMapping) (s : State)
      → HasDistinctPorts s.registry
      → All (IsApproved config s.ledger) split.0
      → Returns AllEntitled (
          (say_all not_published split.1
              >> (if is_empty split.0
                  then withdraw_all system config
                  else publish_approved system config split.0))
            s)
  split-Entitled split s distinct approved =
      Leaves-Returns
        (λ ledger registry. HasDistinctPorts registry × All (IsApproved config ledger) split.0)
        AllEntitled (say_all not_published split.1)
        (λ _.
          if is_empty split.0
          then withdraw_all system config
          else publish_approved system config split.0)
        s (say_all-Leaves system config not_published split.1) (distinct, approved)
        (λ _ t h. elim (Bool-cases (is_empty split.0)) [
          | inl none_ ↦ rw none_ (withdraw_all-Entitled t)
          | inr some_ ↦ rw some_ (publish_approved-Entitled split.0 t h.0 h.1)
        ])

  publish_requested-Entitled :
      (s : State)
      → HasDistinctPorts s.registry
      → Returns AllEntitled (publish_requested system config s)
  unfolding publish_requested publications
  publish_requested-Entitled s distinct =
      answered (approved_publications system.host system.interactive config s.ledger) refl
    where
      answered :
          (r : Result (List PortMapping × List PortMapping) × LedgerFile)
          → approved_publications system.host system.interactive config s.ledger ≡ r
          → Returns AllEntitled (
              resume
                (λ split.
                  say_all not_published split.1
                  >> (if is_empty split.0
                      then withdraw_all system config
                      else publish_approved system config split.0))
                (r.0, record s { ledger = r.1 }))
      answered (err e, f) q = tt
      answered (ok (approved, pending), f) q =
          split-Entitled (approved, pending) (record s { ledger = f }) distinct
            (approved_publications-is_recorded system.host system.interactive config s.ledger f
              approved pending q)

  -- Each endpoint that `_publish` returns is approved on record in the ledger that it leaves, and in the
  -- registry that it leaves the project holds its host port, whatever the person at the terminal and the
  -- commands answer, if no port stands twice in the registry before.
  pub publish_ports-Entitled :
      (s : State)
      → HasDistinctPorts s.registry
      → Returns AllEntitled (publish_ports system config s)
  unfolding publish_ports
  publish_ports-Entitled s distinct = elim (Bool-cases (is_empty (publishable config))) [
    | inl nothing ↦ rw nothing (withdraw_all-Entitled s)
    | inr requested ↦ elim (Bool-cases (Publish.helper_available system)) [
      | inl there ↦ rw (requested, there) (publish_requested-Entitled s distinct)
      | inr gone ↦ rw (requested, gone) tt
    ]
  ]
