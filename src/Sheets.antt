-- ===== src/Sheets.antt =====
-- apps/backend/src/modules/air-shipments/normalizer.ts and cell-merge.ts: the headers and the cells of
-- a sheet as it is read.
mod Headers
mod Merge
pub mod Names
pub mod Merging
unfoldable pub use Headers.*
unfoldable pub use Merge.*
