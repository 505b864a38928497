-- ===== src/Operators.antt =====
-- internal/controller/clusteroperators and internal/clusteroperators.
mod Assessment
mod Reconcile
pub mod Settles
pub mod Verdict
unfoldable pub use Assessment.*
unfoldable pub use Reconcile.*
