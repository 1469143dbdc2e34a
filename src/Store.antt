-- ===== src/Store.antt =====
-- infra/state_store.py and infra/db_rows.py: the tables of the database and the statements that the
-- bot runs on them.
pub mod Rows
pub mod Statements
pub mod Signals
pub mod Stages
pub mod Summaries
pub mod Integrity
