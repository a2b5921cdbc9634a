-- ===== src/Batch.antt =====
-- cmd/: the programs that run from time to time and write the database.
pub mod Entries
pub mod Fetcher
pub mod Updater
pub mod Migrator
