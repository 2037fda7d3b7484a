-- ===== src/Tests.antt =====
-- Runs of the handlers on small stores, and each property at an input that meets its hypotheses.
mod World
mod SessionTests
mod InvitationTests
mod ScenarioTests
mod RoleTests
mod FleetTests
mod FleetTableTests
mod AlertTests
mod VendorGroupTests
mod SchedulerTests
mod SettlementTests
mod CsvTests
mod SimulationTests
mod TrackingTests
mod RouteGroupTests
mod SheetTests
