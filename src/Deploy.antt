-- ===== src/Deploy.antt =====
-- internal/deploy/executor.go: from a release to a running container behind the proxy.
pub mod Contract
pub mod Failures
pub mod Host
pub mod Network
pub mod EnvFile
pub mod Containers
pub mod Arguments
pub mod Memory
pub mod Switch
pub mod Reconcile
pub mod Source
pub mod Adapters
pub mod Building
pub mod Release
