-- ===== src/Tests.antt =====
-- Runs of the program's functions on sample data, and the theorems at concrete data.
pub mod Samples
pub mod Security
pub mod Config
pub mod Image
pub mod Runs
pub mod Builds
pub mod Machine
pub mod Lifecycle
pub mod Commands
pub mod Images
pub mod Templates
