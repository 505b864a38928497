-- ===== src/Versions.antt =====
-- internal/clusterversions and internal/controller/clusterversions.
mod Predicates
mod Difference
mod Updating
mod Float
mod Estimate
mod Assessment
mod Reconcile
pub mod Tolerance
pub mod Completion
pub mod Settles
pub mod Agreement
pub mod Determined
unfoldable pub use Predicates.*
unfoldable pub use Difference.*
unfoldable pub use Updating.*
unfoldable pub use Float.*
unfoldable pub use Estimate.*
unfoldable pub use Assessment.*
unfoldable pub use Reconcile.*
