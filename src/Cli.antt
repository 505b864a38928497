-- ===== src/Cli.antt =====
-- cmd/oc-update-status: what the command shows of the insights.
mod Nodes
mod NodeTable
mod Pools
mod ControlPlane
pub mod Shown
pub mod Completion
pub mod Picked
pub mod Sorted
pub mod Listed
pub mod Table
pub mod Omitted
unfoldable pub use Nodes.*
unfoldable pub use NodeTable.*
unfoldable pub use Pools.*
unfoldable pub use ControlPlane.*
