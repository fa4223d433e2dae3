-- ===== src/Incus.antt =====
-- incus.py: the client of the restricted Incus user socket. A child for each group of operations.
pub mod Values
pub mod Version
pub mod Client
pub mod Mounts
pub mod Guest
pub mod Network
pub mod Address
pub mod Devices
pub mod Images
pub mod Instance
pub mod Quiet
pub mod Guarded
