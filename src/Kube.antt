-- ===== src/Kube.antt =====
-- The vocabulary of the Kubernetes libraries that every component uses: Go errors as values
-- (Kube/Error), texts built by fmt (Kube/Text), status conditions and the interface of
-- apimachinery's condition helpers (Kube/Condition), and the outcome of a reconcile (Kube/Outcome).
pub mod Text
pub mod Error
pub mod Condition
pub mod Outcome
