-- ===== src/Api/Common.antt =====
-- api/v1alpha1/common_types.go.
use openshift_update_experie.Prelude.{String, Bool, true, false}

pub record ResourceRef : Type 0 where
  pub group : String
  pub resource : String
  pub name : String
  pub namespace : String

pub data ScopeType : Type 0 where
  control_plane_scope worker_pool_scope : ScopeType

abbrev pub scope_name : ScopeType → String
scope_name control_plane_scope = "ControlPlane"
scope_name worker_pool_scope = "WorkerPool"

abbrev pub is_control_plane : ScopeType → Bool
is_control_plane control_plane_scope = true
is_control_plane worker_pool_scope = false
