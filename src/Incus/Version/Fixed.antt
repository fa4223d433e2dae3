-- ===== src/Incus/Version/Fixed.antt =====
-- Which versions of the daemon look an ACL up in the right project.
use derico_sandbox.Incus.Version.{acl_project_lookup_is_broken}
use derico_sandbox.Prelude.{false, ℕ, ◌↔◌, ◌≡◌, ◌≤◌, ◌⊎◌, arith}

-- A version looks an ACL up in the right project exactly when it is 6.0.6 or later in 6.0, 6.22 or
-- later in 6, or of a later major version.
pub acl_project_lookup-fixed :
    (a b c : ℕ)
    → (acl_project_lookup_is_broken (a, b, c) ≡ false)
      ↔ ((7 ≤ a) ⊎ ((a ≡ 6) × ((22 ≤ b) ⊎ ((b ≡ 0) × (6 ≤ c)))))
unfolding acl_project_lookup_is_broken
acl_project_lookup-fixed a b c = (ground arith, ground arith)
