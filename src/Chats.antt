-- ===== src/Chats.antt =====
-- Chats: their people, what each of them has set, and how far they have read.
pub mod State
pub mod Handlers
pub mod Seats
pub mod Own
pub mod Pairs
pub mod Reached
