-- ===== src/Cli/Ports/Untouched.antt =====
-- The statements that look for the VM's address and drive the helper leave the host's files alone.
use derico_sandbox.Json.{Value}
use derico_sandbox.Config.Ports.{PortMapping}
use derico_sandbox.Config.Project.{ProjectConfig}
use derico_sandbox.Errors.{Error}
use derico_sandbox.Incus.Client.{instance_record, decoded}
use derico_sandbox.Incus.Instance.{guest_ip, held_address}
use derico_sandbox.Prelude.{List, String, [], nat_Eq, some, string_Eq, ◌∷◌, Option, none}
use derico_sandbox.Prelude.Dict.{Dict}
use derico_sandbox.Publish
use derico_sandbox.Publish.{Published}
use derico_sandbox.System.{System, say, say_all}
use derico_sandbox.System.Leaves.{Leaves, leaves, >>=-Leaves}

module _ (system : System) (config : ProjectConfig) where
  decoded-Leaves : (raised : Error) (o : Option Value) → Leaves (decoded system raised o)
  decoded-Leaves raised none = search leaves
  decoded-Leaves raised (some v) = search leaves

  held_address-Leaves :
      (instance_ : String) (o : Option (Dict String Value))
      → Leaves (held_address system instance_ o)
  unfolding held_address
  held_address-Leaves instance_ none = search leaves
  held_address-Leaves instance_ (some d) = search leaves

  pub guest_ip-Leaves : Leaves (guest_ip system config)
  unfolding guest_ip instance_record
  guest_ip-Leaves = search (leaves, decoded-Leaves, held_address-Leaves) depth 16

  pub fixed-Leaves : (o : Option String) → Leaves (Publish.fixed_or_tailnet system o)
  unfolding Publish.fixed_or_tailnet Publish.tailnet_address
  fixed-Leaves none = search leaves
  fixed-Leaves (some fixed) = search leaves

  told_by-Leaves : (o : Option String) → Leaves (Publish.told_by system o)
  unfolding Publish.told_by
  told_by-Leaves none = search leaves
  told_by-Leaves (some binary) = search leaves

  pub say_all-Leaves {ℓ} : {A : Type ℓ} (line : A → String) (xs : List A) → Leaves (say_all line xs)
  unfolding say_all
  say_all-Leaves line [] = search leaves
  say_all-Leaves line (x ∷ xs) =
      >>=-Leaves (say (line x)) (λ _. say_all line xs) (search leaves) (λ _. say_all-Leaves line xs)

  pub drive-Leaves :
      (guest bound : String) (ms : List PortMapping)
      → Leaves (Publish.drive_helper system config guest bound ms)
  unfolding Publish.drive_helper
  drive-Leaves guest bound ms = search leaves depth 12

  pub hostname-Leaves : Leaves (Publish.hostname system)
  unfolding Publish.hostname
  hostname-Leaves = told_by-Leaves (system.which "tailscale")

  pub clear-Leaves : Leaves (Publish.clear system config)
  unfolding Publish.clear Publish.drop_listeners
  clear-Leaves = search leaves depth 12
