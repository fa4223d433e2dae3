-- ===== src/Incus/Guarded/Create.antt =====
-- `create_instance` starts no VM before its ACL is written and attached.
use derico_sandbox.Incus.Guarded.Steps.{apply_acl-Outcome, start-Outcome, attach-Ready}
use derico_sandbox.Config.Project.{ProjectConfig, instance_name}
use derico_sandbox.Errors.{Error, ok}
use derico_sandbox.Incus.Client.{call}
use derico_sandbox.Incus.Devices.{add_devices}
use derico_sandbox.Incus.Instance.{
  build_instance, discard_instance, init_argv, set_up_guest, start_argv, launch, check_image,
  create_instance,
}
use derico_sandbox.Incus.Network.{
  acl_path, admin_acl_query, attach_acl, delete_acl, host_acl_name, apply_acl,
}
use derico_sandbox.Incus.Quiet.{
  add_devices-Only, is_quiet, starts_none, set_up_guest-Only, check_image-Only,
}
use derico_sandbox.Prelude.{List, String, ◌≡◌}
use derico_sandbox.Security.Acl.{AclPolicy}
use derico_sandbox.Incus.Guarded.{
  IsGuarded, Ready, IsGuarded-Closed, Since, puts_acl, starts_none-Closed,
}
use derico_sandbox.System.{Event, State, System, attempt, lift, return, ◌>>=◌, ◌>>◌}
use derico_sandbox.System.Effects.{Only, effects}
use derico_sandbox.System.Outcomes.{
  Outcome, Anything, Only-Outcome, >>=-Outcome, Only-last, Outcome-invariant, attempt-Outcome,
}

module _ (system : System) (config : ProjectConfig) (instance_ acl : String) where
  abbrev path : String
  path = acl_path system acl

  abbrev G : List Event → Type 0
  G = IsGuarded instance_ acl path

  discard-Only :
      (raised : Error) → Only starts_none (discard_instance system config instance_ raised)
  unfolding discard_instance delete_acl admin_acl_query
  discard-Only raised = search effects depth 12

  init-Only : Only starts_none (call system (init_argv system config instance_))
  unfolding init_argv
  init-Only = search effects

  module _ (named : host_acl_name system config ≡ ok acl) where
    launch_guarded :
        (policy : AclPolicy) (s : State)
        → Ready instance_ acl path s.history
        → Outcome G Anything (launch system config instance_ policy s)
    unfolding launch
    launch_guarded policy s r =
        let inside = set_up_guest system config instance_ policy in
        >>=-Outcome G Anything Anything (call system (start_argv system instance_) s)
          (λ _. inside >> return policy) (start-Outcome system config instance_ acl named s r)
          (λ _ t g _.
            Only-Outcome is_quiet G Anything inside (λ _. return policy) t
              (set_up_guest-Only system config instance_ policy)
              (IsGuarded-Closed instance_ acl path) g (λ _ u g. (g, tt)))

    attach_guarded :
        (policy : AclPolicy) (s : State)
        → G s.history
        → Since (puts_acl path) s.history
        → Outcome G Anything
            ((attach_acl system config instance_ >> launch system config instance_ policy) s)
    attach_guarded policy s g w =
        >>=-Outcome G (λ _ h. Ready instance_ acl path h) Anything
          (attach_acl system config instance_ s) (λ _. launch system config instance_ policy)
          (attach-Ready system config instance_ acl named s (g, w))
          (λ _ t _ r. launch_guarded policy t r)

    build_instance-Outcome :
        (s : State) → G s.history → Outcome G Anything (build_instance system config instance_ s)
    unfolding build_instance
    build_instance-Outcome s g =
        Only-Outcome is_quiet G Anything (add_devices system config instance_)
          (λ _. apply_acl system config >>= λ policy.
            attach_acl system config instance_ >> launch system config instance_ policy)
          s (add_devices-Only system config instance_) (IsGuarded-Closed instance_ acl path) g
          (λ _ t g.
            >>=-Outcome G (λ policy h. Since (puts_acl path) h) Anything (apply_acl system config t)
              (λ policy.
                attach_acl system config instance_ >> launch system config instance_ policy)
              (apply_acl-Outcome system config instance_ acl named t g) attach_guarded)

  -- `create_instance` leaves each start of the VM behind a write of the project's ACL and its attachment
  -- to the VM's NIC, however it ends and whatever the commands answer.
  pub create_instance-IsGuarded :
      host_acl_name system config ≡ ok acl
      → instance_name system.platform config ≡ ok instance_
      → (s : State) → IsGuarded instance_ acl path s.history
      → IsGuarded instance_ acl path (create_instance system config s).1.history
  unfolding create_instance
  create_instance-IsGuarded named vm s g =
      let init = call system (init_argv system config instance_) in
      let body =
        attempt (build_instance system config instance_)
          (discard_instance system config instance_) in
      Outcome-invariant G Anything (create_instance system config s) (
        Only-Outcome is_quiet G Anything (check_image system config)
          (λ _. lift (instance_name system.platform config) >>= λ i.
            call system (init_argv system config i)
            >> attempt (build_instance system config i) (discard_instance system config i))
          s (check_image-Only system config) (IsGuarded-Closed instance_ acl path) g
          (λ _ t g. rw vm (
            Only-Outcome starts_none G Anything init (λ _. body) t init-Only
              (starts_none-Closed instance_ acl path) g
              (λ _ u g.
                attempt-Outcome G Anything (build_instance system config instance_ u)
                  (discard_instance system config instance_) (build_instance-Outcome named u g)
                  (λ e v g.
                    Only-last starts_none G (discard_instance system config instance_ e) v
                      (discard-Only e) (starts_none-Closed instance_ acl path) g)))))
