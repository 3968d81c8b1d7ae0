-- ===== src/Database.antt =====
-- internal/common/database: the provisioning of a service's MariaDB resources and the steady-state
-- schema migration, shared by the database-backed operators.
pub mod Jobs
pub mod Flow
pub mod Provision
pub mod Sync
pub mod Finalize
