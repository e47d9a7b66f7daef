-- ===== src/Sqlite.antt =====
-- internal/audit: the SQLite store of decision records, execution claims and audit rows. The tables
-- with the statements on them and the driver are in Database, the columns in Rows, and the methods of
-- `Store` in Claims, Decisions and Trail. Calls puts them in sequence.
pub mod Database
pub mod Rows
pub mod Claims
pub mod Decisions
pub mod Trail
pub mod Calls
