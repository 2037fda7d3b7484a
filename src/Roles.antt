-- ===== src/Roles.antt =====
-- apps/backend/src/modules/roles: `RolesService`, and what its operations keep.
mod Service
mod Writes
pub mod Grants
pub mod Protection
unfoldable pub use Service.*
