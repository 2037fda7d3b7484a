-- ===== src/RouteGroups.antt =====
-- apps/backend/src/modules/route-groups: `RouteGroupsService`.
mod Service
pub mod Routes
unfoldable pub use Service.*
