-- ===== src/Sqllite.antt =====
-- internal/sqllite: the event store.
pub mod Errors
pub mod Store
pub mod SummaryRows
pub mod Summaries
