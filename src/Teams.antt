-- ===== src/Teams.antt =====
-- Teams, their members and their channels: src/routes/teams.js and src/routes/membership.js.
pub mod State
pub mod Handlers
pub mod Membership
pub mod Invariant
pub mod Writes
pub mod Preservation
pub mod Authority
pub mod Soundness
pub mod LeaveRace
