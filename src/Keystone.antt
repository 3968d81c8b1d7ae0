-- ===== src/Keystone.antt =====
-- operators/keystone/internal/controller: the database of a Keystone CR, with the upgrade from one
-- OpenStack release to the next by expand, migrate and contract Jobs.
pub mod State
pub mod Jobs
pub mod Upgrade
pub mod Database
pub mod Rollout
pub mod History
pub mod Keys
pub mod Password
pub mod Deletion
