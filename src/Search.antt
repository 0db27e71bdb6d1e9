-- ===== src/Search.antt =====
-- Search: the query language, the filters for both engines, and what is shown.
pub mod Query
pub mod Dates
pub mod Filter
pub mod FilterLaws
pub mod Global
pub mod Access
