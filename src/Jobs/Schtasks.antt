-- ===== src/Jobs/Schtasks.antt =====
-- src/jobs/schtasks.py: when a schedule fires, and the entries of the task scheduler.
pub mod Fires
pub mod State
pub mod Tasks
pub mod Sync
pub mod Records
pub mod Ownership
