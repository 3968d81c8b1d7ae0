-- ===== src/ControlPlane.antt =====
-- operators/c5c3/internal/controller: the ControlPlane CR, which projects the children of a control
-- plane, and its teardown behind the finalizer c5c3.io/orc-teardown.
pub mod State
pub mod Cluster
pub mod Names
pub mod Children
pub mod Orc
pub mod Pass
pub mod Residue
pub mod Namespaces
pub mod Teardown
