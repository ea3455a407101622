-- ===== src/Jobs.antt =====
-- src/jobs/: the jobs registry, the run history on disk, the mutex queue and the executor.
pub mod Record
pub mod Job
pub mod Registry
pub mod World
pub mod History
pub mod Naming
pub mod Queue
pub mod Reap
pub mod Trigger
pub mod Stats
pub mod Admission
pub mod Executor
pub mod Watchdog
pub mod Schtasks
pub mod Coverage
pub mod Secrets
pub mod Webhook
