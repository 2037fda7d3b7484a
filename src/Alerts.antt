-- ===== src/Alerts.antt =====
-- apps/backend/src/modules/air-shipments/alert-evaluator.ts: the alerts of a shipment row.
mod Fields
mod Profiles
mod Evaluator
pub mod Rules
unfoldable pub use Fields.*
unfoldable pub use Profiles.*
unfoldable pub use Evaluator.*
