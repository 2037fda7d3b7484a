-- ===== src/Tracking.antt =====
-- apps/backend/src/modules/air-shipments/airline-tracking: the parser of a tracking answer and the
-- registry of airlines.
mod Parser
mod Sources
pub mod Registry
unfoldable pub use Parser.*
unfoldable pub use Sources.*
