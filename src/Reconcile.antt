-- ===== src/Reconcile.antt =====
-- internal/common/reconcile: the pipeline of sub-reconcilers, the parallel group, the Ready
-- aggregate with the status write, and the projection of a child CR.
pub mod Pipeline
pub mod Parallel
pub mod Status
pub mod Project
