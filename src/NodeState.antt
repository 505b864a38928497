-- ===== src/NodeState.antt =====
-- internal/controller/nodestate: the central evaluation of node update state.
mod Fnv
mod State
mod Conditions
mod Assess
mod States
mod Caches
pub mod Channel
pub mod Controller
pub mod Merge
pub mod Verdict
pub mod Phases
pub mod Once
pub mod Repeat
pub mod Stability
pub mod Walks
pub mod Selectors
pub mod Filed
unfoldable pub use Fnv.*
unfoldable pub use State.*
unfoldable pub use Conditions.*
unfoldable pub use Assess.*
unfoldable pub use States.*
unfoldable pub use Caches.*
