-- ===== src/Security.antt =====
-- security.py: approvals, publications, the registry of host ports, and the network policy.
pub mod Endpoints
pub mod Hosts
pub mod Acl
pub mod Ledger
pub mod Mounts
pub mod Approvals
pub mod Publications
pub mod Registry
