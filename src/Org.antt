-- ===== src/Org.antt =====
-- controlplane/internal/org: roles, memberships and invitations of organizations.
pub mod Roles
pub mod Store
