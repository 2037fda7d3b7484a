-- ===== src/Users.antt =====
-- apps/backend/src/modules/users: `UsersService` and its DTOs.
mod Service
unfoldable pub use Service.*
