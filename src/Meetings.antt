-- ===== src/Meetings.antt =====
-- Meetings, their lobby, breakout rooms and in-call extras: src/meet-signaling.js.
pub mod State
pub mod Lobby
pub mod Moves
pub mod Breakouts
pub mod Extras
pub mod Whiteboard
pub mod Steps
pub mod Gate
pub mod Leaving
pub mod GateMoves
pub mod Events
pub mod Traffic
pub mod LobbyLaws
pub mod Overlap
pub mod Ranges
