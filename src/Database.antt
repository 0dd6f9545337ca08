-- ===== src/Database.antt =====
-- backend/app/database.py: the SQLite store. The operations stand in the child modules, by table.
pub mod Types
pub mod Tasks
pub mod Jobs
pub mod Sync
pub mod Chunks
pub mod Claim
pub mod Runners
pub mod Query
