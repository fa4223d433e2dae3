-- ===== src/Config.antt =====
-- config.py: the reader of `.sandboxsh.json`, and what is derived from a configuration.
pub mod Names
pub mod Size
pub mod Ports
pub mod Firewall
pub mod Tailscale
pub mod Mounts
pub mod Project
pub mod Load
