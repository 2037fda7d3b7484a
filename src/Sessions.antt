-- ===== src/Sessions.antt =====
-- What the handlers of Auth guarantee: lifetimes, lockout, revocation, rotation, access control.
pub mod Lifetime
pub mod Lockout
pub mod Tokens
pub mod Revocation
pub mod Rotation
pub mod Access
