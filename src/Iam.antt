-- ===== src/Iam.antt =====
-- internal/modules/iam: roles, permissions, their assignment, authentication and authorisation.
pub mod Links
pub mod Model
pub mod RoleService
pub mod UserRoleService
pub mod PermissionService
pub mod PermissionHandler
pub mod RoleHandler
pub mod Checker
