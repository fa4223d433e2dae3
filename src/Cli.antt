-- ===== src/Cli.antt =====
-- cli.py: the commands, over the client, the publisher and the host's state.
pub mod Ports
pub mod Lifecycle
pub mod Commands
pub mod Images
pub mod Doctor
pub mod Effective
