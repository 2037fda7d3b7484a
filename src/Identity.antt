-- ===== src/Identity.antt =====
-- The tables of users, sessions, roles and invitations (apps/backend/src/modules/*/entities), the
-- events that the services emit, and what the services use of the platform: the ORM, bcrypt,
-- SHA-256, the JWT library and the configuration. An identifier (a UUID) is only compared, and is a
-- number here; a time is in milliseconds. The columns createdAt and updatedAt are left out.
mod Entities
mod Externals
mod Tables
pub use Entities.*
pub use Externals.*
unfoldable pub use Tables.*
