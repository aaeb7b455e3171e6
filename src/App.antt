-- ===== src/App.antt =====
-- internal/app: the worker that runs the queued jobs.
pub mod Configuration
pub mod Environment
pub mod Retention
pub mod Queueing
pub mod Decisions
pub mod Worker
pub mod References
pub mod Webhook
pub mod Collection
pub mod Access
