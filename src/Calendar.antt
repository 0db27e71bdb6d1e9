-- ===== src/Calendar.antt =====
-- Calendar conflicts: src/meetingConflicts.js.
pub mod Conflicts
pub mod ConflictLaws
