-- ===== src/Settlement.antt =====
-- apps/backend/src/modules/pnl-settlement: the invoice workbook and its settlement against the
-- shipment facts.
mod Columns
mod Parser
mod Service
pub mod Counting
mod Keys
pub mod Chunks
pub mod Commit
unfoldable pub use Columns.*
unfoldable pub use Parser.*
unfoldable pub use Service.*
