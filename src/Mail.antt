-- ===== src/Mail.antt =====
-- server/backend/src/cq_server/transactional: the central mail service, which sends on behalf of the
-- groups. Its tables, its cache of answers and what it hands to the mail provider are one state.
pub mod Idempotency
pub mod Suppression
pub mod Tenancy
pub mod Auth
pub mod Request
pub mod Send
pub mod Kept
pub mod Accepted
pub mod Branches
pub mod Stays
pub mod Repeat
pub mod Allowed
pub mod Blocked
pub mod Silenced
pub mod Swept
pub mod Latest
mod Tests
