-- ===== src/Messages.antt =====
-- Messages in channels and chats: src/routes/messages.js, the messages of src/routes/dm.js, and what
-- they call (src/announcement.js, src/editHistory.js, src/fileVersions.js, src/scheduler.js).
pub mod Announcement
pub mod State
pub mod Access
pub mod Scopes
pub mod Posting
pub mod Changing
pub mod Requests
pub mod Stored
pub mod Headlines
pub mod History
pub mod Reactions
pub mod Gaps
pub mod Scheduled
pub mod Delivery
pub mod Once
pub mod Cancelled
pub mod Versions
pub mod VersionLaws
