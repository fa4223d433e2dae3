-- ===== src/Tests/Commands.antt =====
-- The theorems on the client and the commands, at the sample machine.
use derico_sandbox.Security.Registry.{load_registry}
use derico_sandbox.FilePath.{FilePath}
use derico_sandbox.Cli.Lifecycle.Guarded.{up-IsGuarded}
use derico_sandbox.FilePath
use derico_sandbox.Config.Project.{acl_name, dots_to_dashes}
use derico_sandbox.Config.Names.{sanitize_name, safe_text, dash_runs, lower, lower_char, nth_char}
use derico_sandbox.Prelude.Text.{
  any_char, strip_by, reverse, drop_while, strip, is_space, join, take_chars, split, split_onto,
}
use derico_sandbox.Prelude.Decimal.{show, digit_char}
use derico_sandbox.Cli.Ports.{publish_ports}
use derico_sandbox.Cli.Ports.Held.{HasDistinctPorts}
use derico_sandbox.Cli.Ports.Entitled.{AllEntitled, publish_ports-Entitled}
use derico_sandbox.Config.Project.{instance_name}
use derico_sandbox.Errors.{ok, ok_injective}
use derico_sandbox.Incus.Guarded.{IsGuarded}
use derico_sandbox.Incus.Guest.{exec_environment, wait_for_guest_command}
use derico_sandbox.Incus.Guest.Environment.{exec_environment-get}
use derico_sandbox.Incus.Guest.Waiting.{Ends, Steady, wait_for_guest_command-Ends}
use derico_sandbox.Incus.Instance.{create_instance}
use derico_sandbox.Incus.Instance.Cleanup.{CleanedUp, Installed, create_instance-CleanedUp}
use derico_sandbox.Incus.Network.{acl_path, host_acl_name}
use derico_sandbox.Incus.Version.{acl_project_lookup_is_broken}
use derico_sandbox.Incus.Version.Fixed.{acl_project_lookup-fixed}
use derico_sandbox.Prelude.{
  List, String, [], arith, false, nat_Eq, refl, some, string_Eq, true, ◌↔◌, ◌∷◌, ◌≡◌, ◌≤◌, ◌⊎◌, ℕ,
}
use derico_sandbox.Prelude.Dict.{get}
use derico_sandbox.System.{Event, slept}
use derico_sandbox.Cli.Lifecycle.{up}
use derico_sandbox.Incus.Client.{verify_host_access}
use derico_sandbox.Incus.Client.Access.{HasAccess, verify_host_access-HasAccess}
use derico_sandbox.System.Leaves.{Returns}
use derico_sandbox.Tests.Machine.{clock_of, fresh, machine, vm, open_project}

abbrev acl : String
acl = "acl-u1000-acl-ss-app-01234567-01234567"

acl_named : host_acl_name (machine false "") open_project ≡ ok acl
unfolding host_acl_name acl_name instance_name sanitize_name safe_text any_char FilePath.name
    FilePath.parent lower strip_by reverse drop_while dash_runs strip is_space lower_char show
    nth_char dots_to_dashes FilePath.render digit_char join take_chars
acl_named = refl

vm_named : instance_name (machine false "").platform open_project ≡ ok vm
unfolding instance_name sanitize_name safe_text any_char FilePath.name FilePath.parent lower
    strip_by reverse drop_while dash_runs strip is_space lower_char take_chars dots_to_dashes
vm_named = refl

up-IsGuarded_example :
    IsGuarded vm acl
      (acl_path (machine false "") acl)
      (up (machine false "") open_project true fresh).1.history
up-IsGuarded_example =
    up-IsGuarded (machine false "") open_project vm acl acl_named vm_named true fresh tt

verify_host_access-HasAccess_example :
    Returns (HasAccess (machine false "")) (verify_host_access (machine false "") fresh)
verify_host_access-HasAccess_example = verify_host_access-HasAccess (machine false "") refl fresh

-- The commands are installed.
sample-Installed : Installed (machine false "")
sample-Installed h args = (_, refl)

create_instance-CleanedUp_example :
    CleanedUp vm (create_instance (machine false "") open_project fresh)
create_instance-CleanedUp_example =
    create_instance-CleanedUp (machine false "") open_project vm sample-Installed vm_named fresh
      refl

no_ports : HasDistinctPorts fresh.registry
unfolding load_registry
no_ports ports read = rw (← ok_injective read) tt

publish_ports-Entitled_example :
    Returns
      (AllEntitled (machine true "") open_project)
      (publish_ports (machine true "") open_project fresh)
publish_ports-Entitled_example =
    publish_ports-Entitled (machine true "") open_project fresh no_ports

clock_forward : (h : List Event) (e : Event) → clock_of h ≤ clock_of (e ∷ h)
clock_forward h (slept d) = omega arith
clock_forward h e = omega arith

sample-Steady : Steady (machine false "")
sample-Steady = record { forward = clock_forward; passes = λ h d. omega arith }

wait_for_guest_command-Ends_example :
    Ends "the agent"
      (wait_for_guest_command (machine false "") 5001 vm ("true" ∷ []) 5000 "the agent" fresh).0
wait_for_guest_command-Ends_example =
    wait_for_guest_command-Ends (machine false "") sample-Steady vm ("true" ∷ []) 5000 "the agent"
      fresh

acl_project_lookup-fixed_example :
    (acl_project_lookup_is_broken (6, 0, 6) ≡ false)
    ↔ ((7 ≤ 6) ⊎ ((◌≡◌ {A = ℕ} 6 6) × ((22 ≤ 0) ⊎ ((◌≡◌ {A = ℕ} 0 0) × (6 ≤ 6)))))
acl_project_lookup-fixed_example = acl_project_lookup-fixed 6 0 6

exec_environment-get_example :
    get (exec_environment (("HERDR_AGENT", "x") ∷ []) ("/usr/bin/pi" ∷ "-c" ∷ [])) "HERDR_AGENT"
    ≡ some "pi"
unfolding FilePath.name FilePath.parts split split_onto
exec_environment-get_example =
    exec_environment-get (("HERDR_AGENT", "x") ∷ []) "/usr/bin/pi" ("-c" ∷ []) "HERDR_AGENT"
