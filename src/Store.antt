-- ===== src/Store.antt =====
-- internal/store/store.go: the database behind the control plane.
pub mod Tables
pub mod Jobs
pub mod Endings
pub mod Releases
pub mod Lifecycle
pub mod Unlock
pub mod Webhooks
pub mod Nodes
pub mod Alerts
pub mod Health
pub mod Secrets
pub mod Settings
pub mod Applications
pub mod Samples
mod Tests
mod AccessTests
pub mod PanelTests
