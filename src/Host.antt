-- ===== src/Host.antt =====
-- The host around one run of the program: its environment variables and home directory, and the person
-- at the terminal, who answers the `click.confirm` prompts.
use derico_sandbox.Config.Firewall.{FirewallEntry}
use derico_sandbox.Config.Mounts.{Mount}
use derico_sandbox.Config.Ports.{PortMapping}
use derico_sandbox.Prelude.{Bool, List}
use derico_sandbox.FilePath.{FilePath}

-- What a prompt asks: to expose a host path, to open an endpoint, to publish a port.
pub data Question : Type 0 where
  expose : Mount → Question
  reach : FirewallEntry → Question
  publish : PortMapping → Question

-- `abort` is an interrupt or the end of the input, for which click raises `Abort`.
pub data Answer : Type 0 where
  accept decline abort : Answer

pub record Host : Type 0 where
  pub home : FilePath
  -- SANDBOXSH_ALLOW_SENSITIVE_MOUNTS is "1"
  pub allow_sensitive_mounts : Bool
  -- SANDBOXSH_ALLOW_OPEN_NETWORK is "1"
  pub allow_open_network : Bool
  -- the answer to a question, after the questions that were asked before it, newest first
  pub confirm : List Question → Question → Answer
