-- ===== src/Scheduler.antt =====
-- apps/backend/src/modules/air-shipments/scheduler.service.ts: polling of the Google sheets.
mod State
mod Service
pub mod Cycles
mod Moves
pub mod Events
mod Handlers
pub mod Exclusion
pub mod Intervals
mod Ticking
mod Updating
pub mod Polling
pub mod Stopping
unfoldable pub use State.*
unfoldable pub use Service.*
