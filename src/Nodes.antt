-- ===== src/Nodes.antt =====
-- internal/controller/nodes/impl.go, which evaluates nodes by itself, and
-- internal/controller/nodeprogressinsight_controller.go, which writes what the central controller
-- has evaluated.
mod Assessment
mod Reconcile
mod Handlers
mod Provided
pub mod Agreement
pub mod Writes
unfoldable pub use Assessment.*
unfoldable pub use Reconcile.*
unfoldable pub use Handlers.*
unfoldable pub use Provided.*
