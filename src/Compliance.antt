-- ===== src/Compliance.antt =====
-- Admin and compliance: src/legalHold.js, src/retention.js and src/messageDelete.js.
pub mod Tables
pub mod Holds
pub mod Files
pub mod Retention
pub mod Deletion
pub mod Objects
pub mod Purging
pub mod PurgeSafety
pub mod PurgeEnds
pub mod Emptied
pub mod PurgeComplete
pub mod Preservation
pub mod Copies
pub mod Runs
pub mod RunLaws
