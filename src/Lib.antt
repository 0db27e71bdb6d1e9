-- ===== src/Lib.antt =====
-- NovaConnect is a chat, calling and meeting server for teams. The server is Node.js over PostgreSQL,
-- Redis and socket.io; media goes through an SFU (src/sfu.js). These files model the parts of it that
-- decide who is in which call, meeting, team or channel, who may write, find and delete what, and
-- what other people are shown.
--
-- Rooms and connections (Rooms.antt). Calls and meetings share `roomUserMap`, which says in which
-- room each socket is, and the socket.io rooms `sfu:<room>`. Each of the two models keeps its own
-- copy of both, with the sockets of its own kind in it.
--
-- Group calls (Calls/, of src/group-calls.js and `formatDuration` of src/callPosts.js). State has the
-- maps of `createGroupCalls`; Access the checks against the database; Lifecycle `persist`,
-- `postOutcome`, `end`, `leave` and `endAll`; Handlers ('gcall:start' and the ring timer) and Joining
-- (the other socket events) one function for each handler; Steps an event for each stretch of code
-- that runs without a wait, so that a list of events is an interleaving of handlers. A handler that
-- awaits in its middle is two functions (start_begin and start_commit, start_create and start_finish,
-- join_check and join_commit). The objects of ended calls, which a waiting handler may still hold,
-- are kept in `gone`. Restart is what the timer at the end of the file does once after a start; its
-- two parts are one step each. The effects on other parts (broadcasts, posts) are a list. Invariant,
-- Frames, Preservation, Soundness, Removal, Cleanup, Exclusive, Races, Posts, Ringing, RestartLaws,
-- and DurationLaws are proofs.
--
-- Meetings (Meetings/, of src/meet-signaling.js). State has the maps of `createMeetSignaling` and the
-- two variables of each connection; Lobby is joining, asking, admitting, denying and leaving; Moves
-- is `moveSocket` and `closeBreakouts`; Breakouts the owner's events; Extras the other in-call events
-- that keep state; Steps all of them as one function. A handler is what it does after its last wait,
-- and the answers of the database (the owner of a link) are arguments. A move waits for its SFU room
-- in the middle: `move_begin` and `move_finish` are its parts, which are events of their own too, so
-- that a list of events can have others between them; in the handlers that move people the two come
-- one right after the other, and the theorems on the lobby are about lists of events in which all
-- moves are like that. Overlap shows what two moves at once do. Whiteboard is the board of a room; a
-- coordinate is a number of millionths, and a listener that throws gives `none`. Gate, Leaving,
-- GateMoves, Events, Traffic, LobbyLaws and Ranges are proofs, and so are Whiteboard/Points and
-- Whiteboard/Erasing.
--
-- Compliance (Compliance/, of src/legalHold.js, src/retention.js and src/messageDelete.js). Tables
-- has the rows that the SQL reads and writes; Holds the hold condition; Files the stored files;
-- Retention the purge of a scope; Runs a run with the saved policy; Deletion the deletion of a
-- message with its preserved copy. The queries are translated to searches through the tables, in the
-- order of ids, and nothing else writes while a purge runs. The two loops of a purge run on fuel; one
-- more than the number of messages is enough. Objects, Purging, PurgeSafety, PurgeEnds, Emptied,
-- PurgeComplete, RunLaws, Preservation and Copies are proofs.
--
-- Teams (Teams/, of src/routes/teams.js and src/routes/membership.js). State has the tables by their
-- keys, with deletions that cascade written out; Handlers has a function for each request of
-- teams.js, Membership those of membership.js, and all of them as one function. A request is one
-- step, but that of leaving is two functions as well, what it reads before and what it writes after.
-- Invariant, Writes, Preservation, Soundness, Authority and LeaveRace are proofs.
--
-- Messages (Messages/, of src/routes/messages.js, the posts of src/routes/dm.js, src/announcement.js,
-- src/editHistory.js, src/fileVersions.js and `deliverDue` of src/scheduler.js). State has the rows
-- over the tables of Teams; Access who sees what; Announcement the headline of a post; Posting new
-- and forwarded messages; Changing reactions, edits, deletions and pins; Requests all of them as one
-- function; History the versions of a message; Versions those of a file; Scheduled the messages that
-- are sent later, where `deliver_each` takes the rows that were read before, so that a request can
-- come in between, and a delivery can fail before or after the message is stored, with its mark or
-- without. A request is one step; a text is what `trim` leaves, with its length where the code asks
-- for it. A store that throws is an answer of its own, and the number of a row that is taken back is
-- used again in the model. What the server-decom channel starts is left out. Scopes, Reactions,
-- Headlines, Gaps, Delivery, Once, Cancelled, Stored and VersionLaws are proofs, and so are parts of
-- Requests and History.
--
-- Chats (Chats/, of src/routes/dm.js). State has the tables of chats, the people in them with what
-- each has set, and who blocks whom; Handlers the requests that make chats, add people, set
-- preferences, mark messages as read and post, of which they have what is done to the rows of the
-- people in the chat. Messages keeps of a chat only who is in it and for whom it is hidden or unread.
-- Seats, Own, Pairs and Reached are proofs.
--
-- Search (Search/, of src/searchQuery.js, src/searchFilter.js and src/search.js). Query takes the
-- tokens of a query and gives its filters; a day is counted from the year 0 by the rules of the
-- calendar. Filter has the expression for Meilisearch and the conditions of SQL as data, with what
-- each engine makes of them; Global the messages that a search shows, over the rows of Messages. What
-- Meilisearch answers is an argument that nothing is assumed of, and so is how SQL compares names and
-- texts. Dates, FilterLaws and Access are proofs.
--
-- Presence (Presence/, of src/presenceRules.js, src/realtime.js and src/presence-grace.js): Rules is
-- the status that others see, Form the out-of-office form; Devices the connected sockets and their
-- idle marks; Grace one person's timers, queue and stored status, where each timer and each job of
-- the queue is an event of its own; Refresh the stored status, and the sweep that settles it.
-- DeviceLaws, Away, GraceLaws, Gone and Sweep are proofs. Calendar (Calendar/, of
-- src/meetingConflicts.js): Conflicts is the grouping of conflicts, ConflictLaws proofs about it.
--
-- Prelude passes on the library's names, with JavaScript's maps as association lists in insertion
-- order (Prelude/Maps), results that may be errors, and the lemmas that the parts share. Scenarios
-- has runs on concrete data.
--
-- Numbers are natural numbers without a bound: ids, times and counts stay far below 2^53. Texts are
-- compared whole; regular expressions and the types of what a client sends are read as the answers
-- they give. Not modelled: the media itself, the routes that only read, the upkeep of the search
-- index, the browser client, the apps, and whatever only reads or writes rows.
mod Prelude
pub mod Rooms
pub mod Calls
pub mod Meetings
pub mod Compliance
pub mod Presence
pub mod Calendar
pub mod Teams
pub mod Messages
pub mod Chats
pub mod Search
pub mod Scenarios
