-- ===== src/Api/Node.antt =====
-- api/v1alpha1/nodeprogressinsight_types.go.
use openshift_update_experie.Prelude.{ℕ, String, List, Option}
use openshift_update_experie.Meta.{Condition}
use openshift_update_experie.Api.Common.{ResourceRef, ScopeType}

-- `NodeStatusInsightConditionType`, as the text in a condition's type.
abbrev pub updating_type : String
updating_type = "Updating"

abbrev pub degraded_type : String
degraded_type = "Degraded"

abbrev pub available_type : String
available_type = "Available"

-- `NodeUpdatingReason`.
pub data NodeUpdatingReason : Type 0 where
  node_draining node_updating node_rebooting node_paused node_update_pending node_completed
        node_cannot_determine :
      NodeUpdatingReason

abbrev pub updating_reason : NodeUpdatingReason → String
updating_reason node_draining = "Draining"
updating_reason node_updating = "Updating"
updating_reason node_rebooting = "Rebooting"
updating_reason node_paused = "Paused"
updating_reason node_update_pending = "Pending"
updating_reason node_completed = "Completed"
updating_reason node_cannot_determine = "CannotDetermine"

-- A `metav1.Duration` is a number of nanoseconds; no estimate here is negative.
pub record NodeProgressInsightStatus : Type 0 where
  pub conditions : List Condition
  pub name : String
  pub pool_resource : ResourceRef
  pub scope : ScopeType
  pub version : String
  pub estimated_to_complete : Option ℕ
  pub message : String
