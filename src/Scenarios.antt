-- ===== src/Scenarios.antt =====
-- apps/backend/src/modules/route-simulation: `RouteSimulationScenariosService` and its guarantees.
mod Service
pub mod Revisions
pub mod Locking
unfoldable pub use Service.*
