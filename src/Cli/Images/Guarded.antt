-- ===== src/Cli/Images/Guarded.antt =====
-- `image build` starts no VM before the ACL of the build is attached to it.
use derico_sandbox.Cli.Ports.{prime_sudo, report_unresolved_defaults}
use derico_sandbox.Cli.Ports.Quiet.{prime_sudo-Only}
use derico_sandbox.Incus.Quiet.Existing.{verify_host_access-Only}
use derico_sandbox.Image.Build.{BuildReport}
use derico_sandbox.Image.Build.Startless.{quiet-Startless}
use derico_sandbox.Image.Cache.{Workshop}
use derico_sandbox.Image.Workers.{build_project_config}
use derico_sandbox.Security.Acl.{AclPolicy}
use derico_sandbox.Errors.{ok}
use derico_sandbox.Incus.Client.{verify_host_access}
use derico_sandbox.Incus.Network.{host_acl_name}
use derico_sandbox.Incus.Quiet.{is_quiet}
use derico_sandbox.Prelude.{Option, String, [], ◌≡◌, none, string_Eq, some, not}
use derico_sandbox.System.{State, System}
use derico_sandbox.System.Effects.{Only, effects}
use derico_sandbox.Cli.Images.{BuildOptions, image_build_command, report_build, report_policy}
use derico_sandbox.Image.Build.Attached.{IsAttached, Only-Keeps, >>=-Keeps}
use derico_sandbox.Image.Build.Guarded.{build-Keeps}

report_policy-Only : (policy : Option AclPolicy) → Only is_quiet (report_policy policy)
unfolding report_policy report_unresolved_defaults
report_policy-Only none = search effects
report_policy-Only (some policy) = search effects

report_build-Only :
    (image : String) (report : BuildReport) → Only is_quiet (report_build image report)
unfolding report_build
report_build-Only image report = search (effects, report_policy-Only)

-- Where the name of the build's ACL is `acl`, `image build` leaves each start of a VM behind the attachment of
-- that ACL to the VM, if each start before it did so, however the command ends.
pub image_build_command-IsAttached :
    (system : System) (workshop : Workshop) (acl : String) (options : BuildOptions) (s : State)
    → host_acl_name system (build_project_config system workshop "" []) ≡ ok acl
    → IsAttached acl s.history
    → IsAttached acl (image_build_command system workshop options s).1.history
unfolding image_build_command
image_build_command-IsAttached system workshop acl options s named g =
    (>>=-Keeps (verify_host_access system) _
        (Only-Keeps _ (quiet-Startless _ (verify_host_access-Only system)))
        λ project_name.
          >>=-Keeps _ _
            (build-Keeps acl system workshop named options.request options.allow_stale
              (not options.no_publish) options.dry_run (not options.no_wait)
              (prime_sudo system "apply the image build's host-enforced firewall")
              (quiet-Startless _
                (prime_sudo-Only system "apply the image build's host-enforced firewall")))
            λ report.
              Only-Keeps _
                (quiet-Startless _ (report_build-Only options.request.alias report))).keeps
      s g
