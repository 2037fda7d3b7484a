-- ===== src/Auth.antt =====
-- apps/backend/src/modules/auth: the service, the two passport strategies, and the guard of
-- apps/backend/src/common/guards.
mod Expiry
mod Service
mod Strategies
mod Guard
unfoldable pub use Expiry.*
unfoldable pub use Service.*
unfoldable pub use Strategies.*
unfoldable pub use Guard.*
