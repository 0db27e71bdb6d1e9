-- ===== src/Calls.antt =====
-- Calls through the SFU: src/group-calls.js, with the outcome posts of src/callPosts.js.
pub mod Duration
pub mod State
pub mod Access
pub mod Lifecycle
pub mod Handlers
pub mod Joining
pub mod Steps
pub mod Frames
pub mod Invariant
pub mod Preservation
pub mod Soundness
pub mod DurationLaws
pub mod Removal
pub mod Cleanup
pub mod Exclusive
pub mod Races
pub mod Posts
pub mod Ringing
pub mod Restart
pub mod RestartLaws
