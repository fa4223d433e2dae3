-- ===== src/Incus/Guarded/Steps.antt =====
-- The statements that write the ACL, attach it and start the VM: what each adds to the history.
use derico_sandbox.Incus.Quiet.{is_quiet, create_acl-Only, prepare_policy-Only, set_nic-Only}
use derico_sandbox.Config.Project.{ProjectConfig}
use derico_sandbox.Errors.{ok}
use derico_sandbox.Incus.Client.{call, control_timeout, incus_argv, setting}
use derico_sandbox.Incus.Instance.{start_argv}
use derico_sandbox.Incus.Network.{
  acl_path, admin_acl_query, apply_acl, attach_acl, host_acl_name, nic_settings, set_nic,
  policy_document, query_argv, create_acl, override_nic, prepare_policy, set_nic_key, write_acl,
}
use derico_sandbox.Json.{Value}
use derico_sandbox.Prelude.{
  List, String, arith, inl, nat_Eq, refl, some, string_Eq, true, ◌==◌, ◌≡◌, [], false, Bool-cases,
  drop, if◌then◌else◌, inr, map, none,
}
use derico_sandbox.Incus.Guarded.{
  IsGuarded, Written, Ready, IsGuarded-Closed, Since, attaches_acl, puts_acl, Written-Closed,
}
use derico_sandbox.Security.Acl.{AclPolicy}
use derico_sandbox.Prelude.{◌∷◌}
use derico_sandbox.System.{Event, Output, State, System, failed, lift, ran, return, run, ◌>>=◌}
use derico_sandbox.System.Outcomes.{
  Closed, Outcome, Anything, run-Outcome, >>=-Outcome, Only-Outcome, Only-last, Outcome-weaken,
}

text_eq_refl : (s : String) → (s == s) ≡ true
text_eq_refl s = (string_Eq.beq_iff s s).1 refl

-- The attachment, over what quiet commands keep.
module _ (system : System) (config : ProjectConfig) (instance_ acl : String)
    (H : List Event → Type 0) (closed : Closed is_quiet H) where
  abbrev Kept : List Event → Type 0
  Kept h = H h × Since (attaches_acl instance_ acl) h

  abbrev A : {X : Type 0} → X → List Event → Type 0
  A x h = Since (attaches_acl instance_ acl) h

  abbrev override_argv : List String
  override_argv =
      incus_argv system
        ("config" ∷ "device" ∷ "override" ∷ instance_ ∷ "eth0" ∷ map setting (nic_settings acl))

  abbrev set_argv : List String
  set_argv =
      incus_argv system
        ("config" ∷ "device" ∷ "set" ∷ instance_ ∷ "eth0" ∷ "security.acls" ∷ acl ∷ [])

  override-Outcome :
      (s : State)
      → H s.history
      → Outcome H
          (λ out h. failed out ≡ false → Since (attaches_acl instance_ acl) h)
          (override_nic system instance_ acl s)
  unfolding override_nic nic_settings
  override-Outcome s w =
      run-Outcome system override_argv false none s H
        (λ out h. failed out ≡ false → Since (attaches_acl instance_ acl) h) w
        (λ reply. closed s.history (ran override_argv reply) refl w)
        (λ out _ fine. inl (
          ground
            (arith, text_eq_refl instance_, text_eq_refl (setting ("security.acls", acl)), fine)))

  set_key-Outcome :
      (s : State) → H s.history → Outcome H A (set_nic_key system instance_ "security.acls" acl s)
  unfolding set_nic_key
  set_key-Outcome s w =
      >>=-Outcome H A A (run system set_argv true none s) (λ out. return tt)
        (run-Outcome system set_argv true none s H A w
          (λ reply. closed s.history (ran set_argv reply) refl w)
          (λ out fine. inl (ground (arith, text_eq_refl instance_, text_eq_refl acl, fine))))
        (λ out t h a. (h, a))

  -- The first setting names the ACL.
  set_nic-Outcome :
      (s : State) → H s.history → Outcome H A (set_nic system instance_ (nic_settings acl) s)
  unfolding set_nic nic_settings
  set_nic-Outcome s w =
      >>=-Outcome H A A (set_nic_key system instance_ "security.acls" acl s)
        (λ _. set_nic system instance_ (drop 1 (nic_settings acl))) (set_key-Outcome s w)
        (λ _ t h a.
          Outcome-weaken Kept H Anything A (set_nic system instance_ (drop 1 (nic_settings acl)) t)
            (λ h r. r.0) (λ _ h r _. r.1)
            (Only-last is_quiet Kept (set_nic system instance_ (drop 1 (nic_settings acl))) t
              (set_nic-Only system instance_ (drop 1 (nic_settings acl)))
              (λ h e q k. (closed h e q k.0, inr (q, k.1))) (h, a)))

  attached-Outcome :
      (out : Output) (s : State)
      → H s.history
      → (failed out ≡ false → Since (attaches_acl instance_ acl) s.history)
      → Outcome H A
          ((if failed out then set_nic system instance_ (nic_settings acl) else return tt) s)
  attached-Outcome out s w a = elim (Bool-cases (failed out)) [
    | inl bad ↦ rw bad (set_nic-Outcome s w)
    | inr fine ↦ rw fine (w, a fine)
  ]

  pub attach_acl-Outcome :
      (named : host_acl_name system config ≡ ok acl) (s : State)
      → H s.history
      → Outcome H A (attach_acl system config instance_ s)
  unfolding attach_acl
  attach_acl-Outcome named s w = rw named (
      >>=-Outcome H (λ out h. failed out ≡ false → Since (attaches_acl instance_ acl) h) A
        (override_nic system instance_ acl s)
        (λ out. if failed out then set_nic system instance_ (nic_settings acl) else return tt)
        (override-Outcome s w) attached-Outcome)

module _ (system : System) (config : ProjectConfig) (instance_ acl : String)
    (named : host_acl_name system config ≡ ok acl) where
  abbrev path : String
  path = acl_path system acl

  abbrev G : List Event → Type 0
  G = IsGuarded instance_ acl path

  abbrev put_argv : Value → List String
  put_argv document =
      "sudo"
      ∷ "incus"
      ∷ "--force-local"
      ∷ query_argv system "PUT" ("-d" ∷ system.dumps document ∷ []) acl

  put-Outcome :
      (document : Value) (s : State)
      → G s.history
      → Outcome G
          (λ out h. Since (puts_acl path) h)
          (admin_acl_query system "PUT" acl (some document) true s)
  unfolding admin_acl_query
  put-Outcome document s g =
      run-Outcome system _ true control_timeout s G (λ out h. Since (puts_acl path) h) g
        (λ reply.
          IsGuarded-Closed instance_ acl path s.history (ran (put_argv document) reply) refl g)
        (λ out fine. inl (ground (arith, text_eq_refl path, fine)))

  abbrev W : {X : Type 0} → X → List Event → Type 0
  W x h = Since (puts_acl path) h

  write_acl-Outcome :
      (policy : AclPolicy) (s : State) → G s.history → Outcome G W (write_acl system policy acl s)
  unfolding write_acl
  write_acl-Outcome policy s g =
      let put = admin_acl_query system "PUT" acl (some (policy_document policy)) true in
      Only-Outcome is_quiet G W (create_acl system acl) (λ _. put >>= λ r. return policy) s
        (create_acl-Only system acl) (IsGuarded-Closed instance_ acl path) g
        (λ _ t g.
          >>=-Outcome G W W (put t) (λ r. return policy) (put-Outcome (policy_document policy) t g)
            (λ out u g' q. (g', q)))

  pub apply_acl-Outcome : (s : State) → G s.history → Outcome G W (apply_acl system config s)
  unfolding apply_acl
  apply_acl-Outcome s g =
      Only-Outcome is_quiet G W (prepare_policy system config)
        (λ policy. lift (host_acl_name system config) >>= write_acl system policy) s
        (prepare_policy-Only system config) (IsGuarded-Closed instance_ acl path) g
        (λ policy t g. rw named (write_acl-Outcome policy t g))

  pub attach-Ready :
      (s : State)
      → Written instance_ acl path s.history
      → Outcome G (λ _ h. Ready instance_ acl path h) (attach_acl system config instance_ s)
  attach-Ready s w =
      Outcome-weaken (Written instance_ acl path) G (λ _ h. Since (attaches_acl instance_ acl) h)
        (λ _ h. Ready instance_ acl path h) (attach_acl system config instance_ s) (λ h w. w.0)
        (λ _ h w a. (w, a))
        (attach_acl-Outcome system config instance_ acl (Written instance_ acl path)
          (Written-Closed instance_ acl path) named s w)

  pub start-Outcome :
      (s : State)
      → Ready instance_ acl path s.history
      → Outcome G Anything (call system (start_argv system instance_) s)
  start-Outcome s r =
      let argv = incus_argv system (start_argv system instance_) in
      >>=-Outcome G Anything Anything (run system argv true none s) (λ out. return tt)
        (run-Outcome system argv true none s G Anything r.0.0
          (λ reply. ((λ _. (r.0.1, r.1)), r.0.0)) (λ out _. tt))
        (λ out t g _. (g, tt))
