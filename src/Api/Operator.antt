-- ===== src/Api/Operator.antt =====
-- api/v1alpha1/clusteroperatorprogressinsight_types.go.
use openshift_update_experie.Prelude.{String, List}
use openshift_update_experie.Meta.{Condition}

abbrev pub operator_updating_type : String
operator_updating_type = "Updating"

abbrev pub operator_healthy_type : String
operator_healthy_type = "Healthy"

abbrev pub operator_reason_updated : String
operator_reason_updated = "Updated"

abbrev pub operator_reason_pending : String
operator_reason_pending = "Pending"

abbrev pub operator_reason_progressing : String
operator_reason_progressing = "Progressing"

abbrev pub operator_reason_cannot_determine : String
operator_reason_cannot_determine = "CannotDetermine"

abbrev pub operator_healthy_as_expected : String
operator_healthy_as_expected = "AsExpected"

abbrev pub operator_healthy_unavailable : String
operator_healthy_unavailable = "Unavailable"

abbrev pub operator_healthy_degraded : String
operator_healthy_degraded = "Degraded"

pub record ClusterOperatorProgressInsightStatus : Type 0 where
  pub conditions : List Condition
  pub name : String
