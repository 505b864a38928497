-- ===== src/NodeState/Controller.antt =====
-- internal/controller/nodestate/impl.go: the central controller.
mod State
mod Reconcile
mod Handlers
mod Broadcast
pub mod Sends
pub mod Frame
pub mod Effects
pub mod Commit
pub mod Requests
pub mod System
pub mod Channels
pub mod Invariant
pub mod Telling
unfoldable pub use State.*
unfoldable pub use Reconcile.*
unfoldable pub use Handlers.*
unfoldable pub use Broadcast.*
