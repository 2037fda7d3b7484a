-- ===== src/Fleet.antt =====
-- apps/backend/src/modules/fleet-vehicles, fleet-drivers and fleet-master-data: dates and instalments,
-- document severity, lease contracts, drivers, master data; and what they keep.
mod Dates
mod Lease
mod Severity
pub mod Csv
pub mod CsvReader
pub mod Export
mod Tables
pub mod MasterData
pub mod Drivers
pub mod Contracts
pub mod Instalments
pub mod Worst
pub mod MasterWrites
mod DriverWrites
pub mod References
pub mod Closing
unfoldable pub use Dates.*
unfoldable pub use Lease.*
unfoldable pub use Severity.*
pub use Tables.*
