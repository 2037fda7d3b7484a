-- ===== src/Invitations.antt =====
-- apps/backend/src/modules/invitations: `InvitationsService`, and what its handlers guarantee.
mod Service
pub mod Pending
pub mod Joining
unfoldable pub use Service.*
