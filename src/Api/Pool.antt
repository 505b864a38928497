-- ===== src/Api/Pool.antt =====
-- api/v1alpha1/machineconfigpoolprogressinsight_types.go.
use openshift_update_experie.Prelude.{ℕ, String, List, Bool, true, false}
use openshift_update_experie.Meta.{Condition}
use openshift_update_experie.Api.Common.{ScopeType}

abbrev pub pool_updating_type : String
pool_updating_type = "Updating"

abbrev pub pool_healthy_type : String
pool_healthy_type = "Healthy"

abbrev pub pool_reason_updated : String
pool_reason_updated = "Updated"

abbrev pub pool_reason_pending : String
pool_reason_pending = "Pending"

abbrev pub pool_reason_paused : String
pool_reason_paused = "Paused"

abbrev pub pool_reason_progressing : String
pool_reason_progressing = "Progressing"

pub data PoolAssessment : Type 0 where
  pool_pending pool_completed pool_degraded pool_excluded pool_progressing : PoolAssessment

abbrev pub assessment_name : PoolAssessment → String
assessment_name pool_pending = "Pending"
assessment_name pool_completed = "Completed"
assessment_name pool_degraded = "Degraded"
assessment_name pool_excluded = "Excluded"
assessment_name pool_progressing = "Progressing"

pub data NodeSummaryType : Type 0 where
  nodes_total nodes_available nodes_progressing nodes_outdated nodes_draining nodes_excluded
        nodes_degraded :
      NodeSummaryType

abbrev pub summary_type_eq : NodeSummaryType → NodeSummaryType → Bool
summary_type_eq nodes_total nodes_total = true
summary_type_eq nodes_available nodes_available = true
summary_type_eq nodes_progressing nodes_progressing = true
summary_type_eq nodes_outdated nodes_outdated = true
summary_type_eq nodes_draining nodes_draining = true
summary_type_eq nodes_excluded nodes_excluded = true
summary_type_eq nodes_degraded nodes_degraded = true
summary_type_eq _ _ = false

-- `Count` is an int32, kept as its bit pattern: a number below 2 ^ 32.
pub record NodeSummary : Type 0 where
  pub type : NodeSummaryType
  pub count : ℕ

-- `Completion` is an int32, kept as its bit pattern.
pub record MachineConfigPoolProgressInsightStatus : Type 0 where
  pub conditions : List Condition
  pub name : String
  pub scope : ScopeType
  pub assessment : PoolAssessment
  pub completion : ℕ
  pub summaries : List NodeSummary
