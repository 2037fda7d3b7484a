-- ===== src/Lib.antt =====
-- Verification of the shipment tracking system (a NestJS backend and a Next.js frontend).
--
-- The program and its parts. The backend keeps users, refresh tokens, profiles, roles and
-- invitations of several organizations in PostgreSQL and serves them through one service per table.
-- A request carries an access token; apps/backend/src/common/guards/rbac.guard.ts asks the
-- permission lookup whether the caller may do what the route names. A refresh token is rotated at
-- each use and revoked by logout, by deactivation and by a change of password. A person joins an
-- organization through an invitation, and then logs in. Beside this stand the modules of the
-- business: the fleet (vehicles, drivers, lease contracts and the master data that their dropdowns
-- use, and its export), the Google sheets that are polled for shipments, the alerts that a shipment
-- row raises, the settlement of invoices against the shipments, the groups of vendors and of
-- routes that reports compare, and the scenarios of the route simulation, which several people edit.
--
-- Which file models what, by the paths of the repository:
--   Identity/Entities, Externals, Tables: the rows of apps/backend/src/modules/{auth, users,
--     organizations, roles, permissions, invitations}, the events, the platform.
--   Auth/Expiry, Service, Strategies, Guard: modules/auth (auth.service.ts, the two strategies, the
--     lifetime parser of auth.controller.ts), common/guards/rbac.guard.ts, and getPermissionsForUser
--     of modules/permissions.
--   Users/Service, Roles/Service, Invitations/Service: the services of the same names.
--   Fleet/Dates, Lease, Severity: modules/fleet-vehicles/fleet-lease.ts and fleet-severity.ts.
--   Fleet/Tables, MasterData, Drivers, Contracts: modules/fleet-master-data, fleet-drivers and
--     fleet-vehicles/fleet-contracts.service.ts.
--   Fleet/Csv: modules/fleet-vehicles/fleet-csv.ts.
--   Scheduler/State, Service, Events: modules/air-shipments/scheduler.service.ts.
--   Sheets/Headers, Merge: modules/air-shipments/normalizer.ts and cell-merge.ts.
--   Settlement/Columns, Parser, Service: modules/pnl-settlement (settlement-parser.ts, and preview and commit
--     of pnl-settlement.service.ts).
--   Tracking/Parser, Sources: modules/air-shipments/airline-tracking (airline-tracking.parser.ts and
--     airline-tracking-source.service.ts).
--   Alerts/Fields, Profiles, Evaluator: modules/air-shipments/alert-evaluator.ts.
--   VendorGroups/Service: modules/vendor-groups/vendor-groups.service.ts.
--   RouteGroups/Service: modules/route-groups/route-groups.service.ts.
--   Simulation/Period, Scope: apps/frontend/src/features/route-simulation/engine (period.ts, scope.ts).
--   Scenarios/Service: modules/route-simulation/route-simulation-scenarios.service.ts.
-- The proofs stand beside them: Sessions (login, rotation, revocation, access), Invitations/Pending
-- and Joining, Roles/Writes, Protection and Grants, Fleet/Instalments, Worst, References, Closing,
-- MasterWrites, DriverWrites, CsvReader and Export, Scheduler/Cycles, Moves, Handlers, Exclusion,
-- Intervals, Ticking, Updating, Polling and Stopping, Sheets/Names and Merging, Settlement/Counting, Keys,
-- Chunks and Commit, Simulation/Ranges, Alerts/Rules, VendorGroups/Reading and Membership,
-- RouteGroups/Routes, Tracking/Registry,
-- Scenarios/Revisions and Locking. Tests holds concrete runs. Prelude holds what they share.
--
-- How code becomes a definition. A method is a function of the same name in snake_case. A handler is
-- an `Action`: a function from the store to a result and the next store, composed by do blocks; an
-- exception of NestJS is an `err`, and what was written before it stays written, unless the source
-- opens a transaction. A table is a list of rows. Interleaved requests are sequences of steps: whole
-- handlers, or for the scenarios the single statements, between which others may run.
--
-- What is a parameter. TypeORM's repository calls (Prelude/Orm) act on a table by the documented
-- effect of find, save, insert, update and delete; `findOne` may answer any of the matching rows.
-- bcrypt, SHA-256 and the signing of tokens are functions of a `Platform` (Identity/Externals); of
-- them only this is assumed, that a password matches its own hash. Identifiers and the clock are
-- inputs: an identifier is a number, times are in milliseconds, and a handler reads the clock once.
-- The length of the array that the database driver answers to an UPDATE is an input of the scenario
-- service; what the JavaScript engine reads from a text as a date or as a number is an input of the
-- alerts and of the settlement, and how it writes a number is an input of the export. The registry of
-- @nestjs/schedule is given by its documented behaviour (Scheduler/State). Tests/World gives a
-- platform that satisfies every law, Tests/SchedulerTests such a registry.
--
-- Unique indexes and foreign keys that the code relies on are part of the operations: a write that
-- they refuse is an error, internal where the service does not reshape it. Dates of the fleet are
-- calendar days, as the columns are; lease amounts are hundredths, and the product of the debt, which
-- JavaScript rounds to a double, is kept as its two factors. In the alerts a number is a count of
-- thousandths and a time comes after 1970. The caller's organization is null for a super admin, and
-- the roles service then looks in every organization, since TypeORM skips a condition on null.
-- Recursion is structural, but for the loop over chunks of the settlement: it has as many rounds as
-- there are rows, which is enough because each round takes one at least; and the range of periods,
-- whose loop the source ends after 241 rounds.
--
-- Not modelled: controllers, DTO validation by decorators, Swagger, logging, mail delivery, storage
-- of files, the migrations, the Google Sheets client, and the frontend but
-- for the periods and the scope of its simulation. Reads that only filter and
-- order rows are left out or stand without their order. The rest of air-shipments, and pnl,
-- the comparison reads of pnl-settlement, barhal, and the vehicles service, are not
-- modelled.
pub mod Prelude
pub mod Identity
pub mod Auth
pub mod Users
pub mod Roles
pub mod Sessions
pub mod Invitations
pub mod Scenarios
pub mod Fleet
pub mod Alerts
pub mod VendorGroups
pub mod RouteGroups
pub mod Sheets
pub mod Settlement
pub mod Simulation
pub mod Scheduler
pub mod Tracking
mod Tests
