-- ===== src/Scenarios.antt =====
-- Runs on concrete data.
mod CallRuns
mod MeetingRuns
mod ComplianceRuns
mod OtherRuns
mod TeamRuns
mod PresenceRuns
mod MessageRuns
mod SearchRuns
mod ChatRuns
