-- ===== src/VendorGroups.antt =====
-- apps/backend/src/modules/vendor-groups: `VendorGroupsService`, its reading and its memberships.
mod Service
pub mod Reading
pub mod Membership
unfoldable pub use Service.*
