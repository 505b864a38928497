-- ===== src/Meta.antt =====
-- `metav1` of k8s.io/apimachinery as far as the program uses it: times, conditions, and the
-- helpers of `k8s.io/apimachinery/pkg/api/meta`, which are an interface with their documented laws.
mod Defs
pub mod Laws
pub mod Lookup
pub mod Stamps
pub mod Contents
unfoldable pub use Defs.*
