-- ===== src/Health.antt =====
-- The health insights of internal/controller/clusterversions/impl.go: which ones are wanted, and how
-- the cluster is brought to hold them.
mod Forced
mod Sync
pub mod Synced
pub mod Errors
unfoldable pub use Forced.*
unfoldable pub use Sync.*
