-- ===== src/Examples.antt =====
-- Concrete instances of the interfaces, and the theorems applied to them.
pub mod Conditions
pub mod Cluster
pub mod Teardown
pub mod Keys
pub mod Password
pub mod Deletion
pub mod Reconcile
pub mod Status
pub mod Release
pub mod HealthCheck
pub mod Job
pub mod Keystone
pub mod Glance
pub mod Secrets
