-- ===== src/Simulation.antt =====
-- apps/frontend/src/features/route-simulation/engine: half-month periods, and the routes in scope.
mod Period
mod Scope
pub mod Ranges
unfoldable pub use Period.*
unfoldable pub use Scope.*
