-- ===== src/Image.antt =====
-- imagebuild.py: the chain of stages, its keys, the cache of finished stages and the plan of a build.
pub mod Names
pub mod Stages
pub mod Keys
pub mod Entries
pub mod Manifest
pub mod Plan
pub mod BuildPlan
pub mod Settings
pub mod Cache
pub mod Builder
pub mod Report
pub mod Workers
pub mod Build
