-- ===== src/Operators/Assessment.antt =====
-- `assessClusterOperator` of internal/controller/clusteroperators/impl.go, and
-- internal/clusteroperators/conditions.go.
use openshift_update_experie.Prelude.{
  String, Bool, true, false, not, ◌&&◌, ◌||◌, List, [], ◌∷◌, Option, none, some, if◌then◌else◌,
  ◌==◌, ◌<>◌, any, select,
}
use openshift_update_experie.Meta.{
  Time, Condition, ConditionStatus, ConditionsApi, condition_true, condition_false,
  condition_unknown, condition_other, status_name, status_eq,
}
use openshift_update_experie.Api.{
  ClusterOperatorProgressInsightStatus, operator_updating_type, operator_healthy_type,
  operator_reason_updated, operator_reason_pending, operator_reason_progressing,
  operator_reason_cannot_determine, operator_healthy_as_expected, operator_healthy_unavailable,
  operator_healthy_degraded,
}
use openshift_update_experie.Cluster.{StatusCondition, OperandVersion, ClusterOperator}

-- `FindOperatorStatusCondition`.
unfoldable pub find_operator_status_condition :
    List StatusCondition → String → Option StatusCondition
find_operator_status_condition [] t = none
find_operator_status_condition (c ∷ cs) t =
    if c.type == t then some c else find_operator_status_condition cs t

-- `OperatorVersionName`.
abbrev pub operator_version_name : String
operator_version_name = "operator"

-- `OperatorAvailable`, `OperatorDegraded` and `OperatorProgressing` of the config API.
abbrev pub operator_available : String
operator_available = "Available"

abbrev pub operator_degraded : String
operator_degraded = "Degraded"

abbrev pub operator_progressing : String
operator_progressing = "Progressing"

abbrev pub is_managed_condition : Condition → Bool
is_managed_condition c = c.type == operator_updating_type || c.type == operator_healthy_type

-- The loop over the operator's versions.
unfoldable pub is_version_updated : String → List OperandVersion → Bool
is_version_updated target = any (λ v. v.name == operator_version_name && v.version == target)

-- The loop over the operator's conditions: the last one of the type stays.
unfoldable pub last_condition :
    String → List StatusCondition → Option StatusCondition → Option StatusCondition
last_condition t [] last = last
last_condition t (c ∷ cs) last = last_condition t cs (if c.type == t then some c else last)

abbrev pub progressing_message : StatusCondition → String
progressing_message p = "Progressing=" <> status_name p.status <> ": " <> p.message

-- The Updating condition; its time is the zero time.
abbrev pub operator_condition : String → ConditionStatus → String → String → Condition
operator_condition t status reason message = record {
  type = t;
  status = status;
  reason = reason;
  message = message;
  last_transition_time = 0;
}

-- By the status of the Progressing condition, of an operator that is not updated.
abbrev pub not_updated : ConditionStatus → String → Condition
not_updated condition_true message =
    operator_condition operator_updating_type condition_true operator_reason_progressing message
not_updated condition_false message =
    operator_condition operator_updating_type condition_false operator_reason_pending message
not_updated condition_unknown message =
    operator_condition operator_updating_type condition_unknown operator_reason_cannot_determine
      message
not_updated (condition_other s) message =
    operator_condition operator_updating_type condition_unknown operator_reason_cannot_determine
      message

unfoldable pub operator_updating : Bool → Option StatusCondition → Condition
operator_updating true none =
    operator_condition operator_updating_type condition_false operator_reason_updated ""
operator_updating true (some p) =
    operator_condition operator_updating_type condition_false operator_reason_updated
      (progressing_message p)
operator_updating false none =
    operator_condition operator_updating_type condition_unknown operator_reason_cannot_determine ""
operator_updating false (some p) = not_updated p.status (progressing_message p)

abbrev as_expected : Condition
as_expected =
    operator_condition operator_healthy_type condition_true operator_healthy_as_expected ""

abbrev degraded_health : Option StatusCondition → Condition
degraded_health none = as_expected
degraded_health (some d) =
    if status_eq d.status condition_true
    then operator_condition operator_healthy_type condition_false operator_healthy_degraded
        d.message
    else as_expected

unfoldable pub operator_health : Option StatusCondition → Option StatusCondition → Condition
operator_health none degraded =
    operator_condition operator_healthy_type condition_unknown operator_healthy_unavailable
      "The cluster operator is unavailable because the available condition is not found in the cluster operator's status"
operator_health (some a) degraded =
    if not (status_eq a.status condition_true)
    then operator_condition operator_healthy_type condition_false operator_healthy_unavailable
        a.message
    else degraded_health degraded

module _ (api : ConditionsApi) where
  unfoldable pub assess_cluster_operator :
      Time → ClusterOperator → String → List Condition → ClusterOperatorProgressInsightStatus
  assess_cluster_operator wall operator target existing =
      let last : String → Option StatusCondition = λ t. last_condition t operator.conditions none in
      let updating =
        operator_updating (is_version_updated target operator.versions)
          (last operator_progressing) in
      let health = operator_health (last operator_available) (last operator_degraded) in
      record {
        name = operator.name;
        conditions =
            api.set_status_condition wall
              (api.set_status_condition wall (select is_managed_condition existing) updating)
              health;
      }
