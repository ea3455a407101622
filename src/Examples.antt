-- ===== src/Examples.antt =====
-- Concrete runs of the theorems.
mod LoginStreaks
mod RunHistory
mod Queues
mod Fires
mod BearerTokens
mod Common
mod Registered
mod Rows
mod Scheduled
mod Covered
mod Hooks
