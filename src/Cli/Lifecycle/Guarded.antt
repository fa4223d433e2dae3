-- ===== src/Cli/Lifecycle/Guarded.antt =====
-- `sandboxsh up` starts no VM before its ACL is written and attached, whether it creates the VM or finds it.
use derico_sandbox.Config.Project.{ProjectConfig, instance_name}
use derico_sandbox.Errors.{ok}
use derico_sandbox.Incus.Client.{call, instance_exists}
use derico_sandbox.Incus.Guarded.Create.{create_instance-IsGuarded}
use derico_sandbox.Incus.Guarded.Steps.{apply_acl-Outcome, attach-Ready, start-Outcome}
use derico_sandbox.Incus.Instance.{create_instance, start_argv}
use derico_sandbox.Incus.Mounts.{assert_immutable_config, sync_mounts}
use derico_sandbox.Incus.Network.{acl_path, apply_acl, attach_acl, host_acl_name}
use derico_sandbox.Prelude.Decimal.{show}
use derico_sandbox.Cli.Lifecycle.{
  settle_guest, wait_for_mounts, attach_existing, authorize, bring_up, create_new, hand_over,
  restart,
}
use derico_sandbox.Cli.Ports.{report_unresolved_defaults}
use derico_sandbox.Cli.Ports.Quiet.{
  say_all-Only, prime_sudo-Only, publish_and_report-Only, verify_and_approve-Only,
}
use derico_sandbox.Incus.Guest.{wait_for_mount, wait_for_agent}
use derico_sandbox.Incus.Quiet.Existing.{
  instance_status-Only, assert_immutable_config-Only, instance_exists-Only, sync_mounts-Only,
}
use derico_sandbox.Prelude.{
  List, String, [], ◌<>◌, ◌∷◌, Bool, false, if◌then◌else◌, length, not, refl, true, ◌≡◌,
}
use derico_sandbox.Security.Acl.{AclPolicy}
use derico_sandbox.Incus.Instance
use derico_sandbox.Cli.Lifecycle.{up}
use derico_sandbox.Incus.Guarded.{
  IsGuarded, Written, Ready, IsGuarded-Closed, Ready-Closed, Since, Written-Closed, puts_acl,
}
use derico_sandbox.Incus.Quiet.{
  is_quiet, pin_allowlist-Only, wait_for_mount-Only, wait_for_agent-Only,
}
use derico_sandbox.System.{Event, State, System, echoed, exec, lift, when, ◌>>=◌, ◌>>◌, push, say}
use derico_sandbox.System.Effects.{Only, effects, >>=-Only}
use derico_sandbox.System.Outcomes.{
  Outcome, >>=-Outcome, Anything, Closed, Only-Outcome, Only-last, Only-strong, Outcome-invariant,
  invariant_Outcome,
}

module _ (system : System) where
  wait_for_mounts-Only :
      (instance_ : String) (targets : List String)
      → Only is_quiet (wait_for_mounts system instance_ targets)
  unfolding wait_for_mounts
  wait_for_mounts-Only instance_ [] = search effects
  wait_for_mounts-Only instance_ (t ∷ ts) =
      >>=-Only is_quiet (wait_for_mount system instance_ t)
        (λ _. say ("mounted: " <> t) >> wait_for_mounts system instance_ ts)
        (wait_for_mount-Only system instance_ t)
        (λ _.
          >>=-Only is_quiet (say ("mounted: " <> t)) (λ _. wait_for_mounts system instance_ ts)
            (search effects) (λ _. wait_for_mounts-Only instance_ ts))

  runs-Only : (instance_ : String) → Only is_quiet (Instance.runs system instance_)
  unfolding Instance.runs
  runs-Only instance_ = search (effects, instance_status-Only) depth 12

  after_start-Only :
      (instance_ : String) (policy : AclPolicy) (changes : List String × List String)
      → Only is_quiet (settle_guest system instance_ policy changes)
  unfolding settle_guest
  after_start-Only instance_ policy changes =
      search (effects, pin_allowlist-Only, wait_for_mounts-Only, say_all-Only) depth 12

  exec-Only : (args : List String) → Only is_quiet (exec system args)
  unfolding exec
  exec-Only args = search effects

  hand_over-Only :
      (config : ProjectConfig) (enter_shell : Bool)
      → Only is_quiet (hand_over system config enter_shell)
  unfolding hand_over
  hand_over-Only config enter_shell = search (effects, publish_and_report-Only, exec-Only) depth 12

  authorize-Only : (config : ProjectConfig) → Only is_quiet (authorize system config)
  unfolding authorize
  authorize-Only config = search (effects, verify_and_approve-Only, prime_sudo-Only)

  report-Only : (policy : AclPolicy) → Only is_quiet (report_unresolved_defaults policy)
  unfolding report_unresolved_defaults
  report-Only policy = search effects

module _ (system : System) (config : ProjectConfig) (instance_ acl : String)
    (named : host_acl_name system config ≡ ok acl)
    (vm : instance_name system.platform config ≡ ok instance_) where
  abbrev G : List Event → Type 0
  G = IsGuarded instance_ acl (acl_path system acl)

  abbrev closed : Closed is_quiet G
  closed = IsGuarded-Closed instance_ acl (acl_path system acl)

  start_when :
      (running : Bool) (s : State)
      → Ready instance_ acl (acl_path system acl) s.history
      → Outcome G Anything (when (not running) (call system (start_argv system instance_)) s)
  start_when true s r = (r.0.0, tt)
  start_when false s r = start-Outcome system config instance_ acl named s r

  abbrev P : String
  P = acl_path system acl

  start_guarded :
      (s : State)
      → Ready instance_ acl P s.history
      → Outcome G Anything (Instance.start system config s)
  unfolding Instance.start
  start_guarded s r = rw vm (
      Only-strong is_quiet (Ready instance_ acl P) G Anything (Instance.runs system instance_)
        (λ running.
          when (not running) (call system (start_argv system instance_))
          >> wait_for_agent system instance_)
        s (runs-Only system instance_) (Ready-Closed instance_ acl P) (λ h r. r.0.0) r
        (λ running t r.
          >>=-Outcome G Anything Anything
            (when (not running) (call system (start_argv system instance_)) t)
            (λ _. wait_for_agent system instance_) (start_when running t r)
            (λ _ u g _.
              Only-last is_quiet G (wait_for_agent system instance_) u
                (wait_for_agent-Only system instance_) closed g)))

  restart_guarded :
      (policy : AclPolicy) (s : State)
      → Written instance_ acl P s.history
      → Outcome G Anything (restart system config instance_ policy s)
  unfolding restart
  restart_guarded policy s w =
      Only-strong is_quiet (Written instance_ acl P) G Anything (report_unresolved_defaults policy)
        (λ _. attach_acl system config instance_ >> Instance.start system config) s
        (report-Only system policy) (Written-Closed instance_ acl P) (λ h w. w.0) w
        (λ _ t w.
          >>=-Outcome G (λ _ h. Ready instance_ acl P h) Anything
            (attach_acl system config instance_ t) (λ _. Instance.start system config)
            (attach-Ready system config instance_ acl named t w) (λ _ u _ r. start_guarded u r))

  -- Once the mounts are in line.
  applied_guarded :
      (changes : List String × List String) (s : State)
      → G s.history
      → Outcome G Anything (
          (apply_acl system config >>= λ policy.
          restart system config instance_ policy >> settle_guest system instance_ policy changes)
            s)
  applied_guarded changes s g =
      >>=-Outcome G (λ policy h. Since (puts_acl P) h) Anything (apply_acl system config s)
        (λ policy.
          restart system config instance_ policy >> settle_guest system instance_ policy changes)
        (apply_acl-Outcome system config instance_ acl named s g)
        (λ policy t g w.
          >>=-Outcome G Anything Anything (restart system config instance_ policy t)
            (λ _. settle_guest system instance_ policy changes) (restart_guarded policy t (g, w))
            (λ _ u g _.
              Only-last is_quiet G (settle_guest system instance_ policy changes) u
                (after_start-Only system instance_ policy changes) closed g))

  attach_existing_guarded :
      (s : State) → G s.history → Outcome G Anything (attach_existing system config instance_ s)
  unfolding attach_existing
  attach_existing_guarded s g =
      let rest = λ (changes : List String × List String). apply_acl system config >>= λ policy.
      restart system config instance_ policy >> settle_guest system instance_ policy changes in
      Only-Outcome is_quiet G Anything (assert_immutable_config system config)
        (λ _. sync_mounts system config >>= rest) s (assert_immutable_config-Only system config)
        closed g
        (λ _ t g.
          Only-Outcome is_quiet G Anything (sync_mounts system config) rest t
            (sync_mounts-Only system config) closed g (λ changes u g. applied_guarded changes u g))

  create_new_guarded :
      (s : State) → G s.history → Outcome G Anything (create_new system config instance_ s)
  unfolding create_new
  create_new_guarded s g =
      let said = echoed ("Creating persistent VM " <> instance_ <> "...") in
      let t = push said s in
      let tell = λ (policy : AclPolicy).
        report_unresolved_defaults policy
        >> say
            ("Created VM with " <> show (length policy.egress) <> " host-enforced egress rules.") in
      >>=-Outcome G Anything Anything (create_instance system config t) tell
        (invariant_Outcome G (create_instance system config t) (
          create_instance-IsGuarded system config instance_ acl named vm t
            (closed s.history said refl g)))
        (λ policy t g _.
          Only-last is_quiet G (tell policy) t (search (effects, report-Only system)) closed g)

  brought_guarded :
      (there : Bool) (s : State)
      → G s.history
      → Outcome G Anything (
          (if there
              then attach_existing system config instance_
              else create_new system config instance_)
            s)
  brought_guarded true s g = attach_existing_guarded s g
  brought_guarded false s g = create_new_guarded s g

  bring_up_guarded : (s : State) → G s.history → Outcome G Anything (bring_up system config s)
  unfolding bring_up
  bring_up_guarded s g =
      let next = λ (there : Bool).
        if there
        then attach_existing system config instance_
        else create_new system config instance_ in
      Only-Outcome is_quiet G Anything (authorize system config)
        (λ _. lift (instance_name system.platform config) >>= λ i.
          instance_exists system i >>= λ there.
          if there then attach_existing system config i else create_new system config i)
        s (authorize-Only system config) closed g
        (λ _ t g. rw vm (
          Only-Outcome is_quiet G Anything (instance_exists system instance_) next t
            (instance_exists-Only system instance_) closed g
            (λ there u g. brought_guarded there u g)))

  -- `sandboxsh up` leaves each start of the project's VM behind a write of its ACL and the attachment of
  -- the ACL to the VM's NIC, with no deletion between, whether it creates the VM or finds it, however it ends
  -- and whatever the commands answer.
  pub up-IsGuarded :
      (enter_shell : Bool) (s : State)
      → IsGuarded instance_ acl (acl_path system acl) s.history
      → IsGuarded instance_ acl (acl_path system acl) (up system config enter_shell s).1.history
  unfolding up
  up-IsGuarded enter_shell s g = Outcome-invariant G Anything (up system config enter_shell s) (
      >>=-Outcome G Anything Anything (bring_up system config s)
        (λ _. hand_over system config enter_shell) (bring_up_guarded s g)
        (λ _ t g _.
          Only-last is_quiet G (hand_over system config enter_shell) t
            (hand_over-Only system config enter_shell) closed g))
