-- ===== src/Api.antt =====
-- api/v1alpha1: the types of the insights.
mod Common
mod Node
mod Pool
mod Operator
mod ControlPlane
mod Health
unfoldable pub use Common.*
unfoldable pub use Node.*
unfoldable pub use Pool.*
unfoldable pub use Operator.*
unfoldable pub use ControlPlane.*
unfoldable pub use Health.*
