-- ===== src/Mco.antt =====
-- internal/mco: the machine-config-operator's view of a pool and of a node.
mod Constants
mod Objects
mod PoolState
mod NodeState
mod Readiness
pub mod Since
pub mod Ready
pub mod Availability
pub mod DesiredState
unfoldable pub use Constants.*
unfoldable pub use Objects.*
unfoldable pub use PoolState.*
unfoldable pub use Readiness.*
unfoldable pub use NodeState.*
