-- ===== src/Api.antt =====
-- backend/app/main.py: the HTTP endpoints over the database, the stored zips and the job files.
pub mod Types
pub mod Auth
pub mod Runner
pub mod Files
pub mod Tasks
pub mod Jobs
pub mod Batch
pub mod Admin
pub mod Leases
pub mod Pushes
pub mod Batches
pub mod Dashboard
pub mod Readers
pub mod Previews
pub mod Metrics
