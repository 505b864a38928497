-- ===== src/Pools.antt =====
-- internal/controller/machineconfigpools: the insight of a pool, from the states of its nodes.
mod Assessment
mod Reconcile
pub mod Bounds
pub mod Verdict
pub mod Stability
pub mod Settles
unfoldable pub use Assessment.*
unfoldable pub use Reconcile.*
