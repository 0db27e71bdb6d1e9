-- ===== src/Presence.antt =====
-- Which status other people see: src/presenceRules.js. A stored time is the number of seconds, which
-- compares as the database's text does; `empty` texts and missing times are `none`.
pub mod Rules
pub mod Form
pub mod Devices
pub mod DeviceLaws
pub mod Away
pub mod Grace
pub mod GraceLaws
pub mod Gone
pub mod Refresh
pub mod Sweep
