-- ===== src/Pools/Assessment.antt =====
-- internal/controller/machineconfigpools/assessment.go. An int32 is kept as its bit pattern, a number
-- below 2 ^ 32, and an int as one below 2 ^ 64.
use openshift_update_experie.Prelude.{
  ℕ, ◌+◌, ◌*◌, ◌/◌, ◌%◌, ◌^◌, String, Bool, not, ◌&&◌, ◌||◌, List, [], ◌∷◌, ◌++◌, Option, none,
  some, if◌then◌else◌, ◌==◌, ltb, eqb, length, any, all, count, as_list,
}
use openshift_update_experie.Meta.{
  Time, Condition, ConditionStatus, ConditionsApi, condition_true, condition_false, status_eq,
}
use openshift_update_experie.Api.{
  ScopeType, PoolAssessment, pool_pending, pool_completed, pool_degraded, pool_excluded,
  pool_progressing, NodeSummary, NodeSummaryType, nodes_total, nodes_available, nodes_progressing,
  nodes_outdated, nodes_draining, nodes_excluded, nodes_degraded, summary_type_eq,
  pool_updating_type, pool_healthy_type, pool_reason_updated, pool_reason_pending,
  pool_reason_paused, pool_reason_progressing, available_type, degraded_type,
  MachineConfigPoolProgressInsightStatus,
}
use openshift_update_experie.NodeState.{
  NodeState, is_completed, is_draining, is_paused, is_applying,
}

abbrev pub int32 : ℕ → ℕ
int32 n = n % 2 ^ 32

-- `n > 0` on a signed int32.
abbrev pub positive : ℕ → Bool
positive n = ltb 0 n && ltb n (2 ^ 31)

abbrev pub has_condition : String → ConditionStatus → List Condition → Bool
has_condition t s = any (λ c. c.type == t && status_eq c.status s)

abbrev pub is_available : NodeState → Bool
is_available node = has_condition available_type condition_true node.conditions

abbrev pub is_outdated : NodeState → Bool
is_outdated node = not (node.version == node.desired_version)

abbrev pub is_degraded : NodeState → Bool
is_degraded node = has_condition degraded_type condition_true node.conditions

-- A phase in which the node is being worked on.
abbrev pub is_active : NodeState → Bool
is_active node = is_applying node.phase || is_draining node.phase

-- An int32 that the loop increments at every node that passes the test.
unfoldable pub counter : (NodeState → Bool) → List NodeState → ℕ → ℕ
counter p [] n = n
counter p (x ∷ xs) n = counter p xs (if p x then int32 (n + 1) else n)

unfoldable pub calculate_node_summaries : List NodeState → List NodeSummary
calculate_node_summaries nodes =
    record { type = nodes_total; count = int32 (length nodes) }
    ∷ record { type = nodes_available; count = counter is_available nodes 0 }
    ∷ record { type = nodes_progressing; count = counter (λ n. is_applying n.phase) nodes 0 }
    ∷ record { type = nodes_outdated; count = counter is_outdated nodes 0 }
    ∷ record { type = nodes_draining; count = counter (λ n. is_draining n.phase) nodes 0 }
    ∷ record { type = nodes_excluded; count = counter (λ n. is_paused n.phase) nodes 0 }
    ∷ record { type = nodes_degraded; count = counter is_degraded nodes 0 }
    ∷ []

-- An int holds the product for every list that fits in memory.
unfoldable pub calculate_pool_completion : List NodeState → ℕ
calculate_pool_completion [] = 0
calculate_pool_completion (x ∷ xs) =
    int32 (count (λ n. is_completed n.phase) (x ∷ xs) * 100 % 2 ^ 64 / length (x ∷ xs))

-- The last summary of the type, as the loop of `calculatePoolAssessment` leaves it; 0 without one.
unfoldable pub last_count : NodeSummaryType → List NodeSummary → ℕ → ℕ
last_count t [] n = n
last_count t (s ∷ rest) n = last_count t rest (if summary_type_eq s.type t then s.count else n)

-- The first summary of the type, as the loops of `determinePoolConditions` find it.
unfoldable pub first_count : NodeSummaryType → List NodeSummary → ℕ
first_count t [] = 0
first_count t (s ∷ rest) = if summary_type_eq s.type t then s.count else first_count t rest

unfoldable pub calculate_pool_assessment : Bool → List NodeState → List NodeSummary → PoolAssessment
calculate_pool_assessment paused [] summaries = pool_pending
calculate_pool_assessment paused (x ∷ xs) summaries =
    if positive (last_count nodes_degraded summaries 0)
    then pool_degraded
    else if paused && positive (last_count nodes_outdated summaries 0)
    then pool_excluded
    else if any is_active (x ∷ xs)
    then pool_progressing
    else if all (λ n. is_completed n.phase) (x ∷ xs)
    then pool_completed
    else pool_pending

abbrev pub pool_condition : String → ConditionStatus → String → Time → Condition
pool_condition t s reason now = record {
  type = t;
  status = s;
  reason = reason;
  message = "";
  last_transition_time = now;
}

unfoldable pub pool_updating : PoolAssessment → List NodeSummary → Time → Condition
pool_updating pool_progressing summaries now =
    pool_condition pool_updating_type condition_true pool_reason_progressing now
pool_updating pool_degraded summaries now =
    if positive (first_count nodes_progressing summaries)
    then pool_condition pool_updating_type condition_true pool_reason_progressing now
    else pool_condition pool_updating_type condition_false pool_reason_pending now
pool_updating pool_completed summaries now =
    pool_condition pool_updating_type condition_false pool_reason_updated now
pool_updating pool_excluded summaries now =
    pool_condition pool_updating_type condition_false pool_reason_paused now
pool_updating pool_pending summaries now =
    pool_condition pool_updating_type condition_false pool_reason_pending now

abbrev pub healthy_reason : PoolAssessment → List NodeSummary → String
healthy_reason pool_completed summaries = "AllNodesUpdated"
healthy_reason pool_excluded summaries = "Paused"
healthy_reason pool_pending summaries =
    if eqb (first_count nodes_total summaries) 0 then "NoNodes" else "NoProblems"
healthy_reason pool_degraded summaries = "NoProblems"
healthy_reason pool_progressing summaries = "NoProblems"

unfoldable pub pool_healthy : PoolAssessment → List NodeSummary → Time → Condition
pool_healthy assessment summaries now =
    if positive (first_count nodes_degraded summaries)
    then pool_condition pool_healthy_type condition_false "NodesDegraded" now
    else pool_condition pool_healthy_type condition_true (healthy_reason assessment summaries) now

unfoldable pub determine_pool_conditions : PoolAssessment → List NodeSummary → Time → List Condition
determine_pool_conditions assessment summaries now =
    pool_updating assessment summaries now ∷ pool_healthy assessment summaries now ∷ []

module _ (api : ConditionsApi) where
  -- The previous status, which may be nil, as the loop asks it for a condition.
  abbrev pub previous_condition :
      Option MachineConfigPoolProgressInsightStatus → String → Option Condition
  previous_condition none t = none
  previous_condition (some status) t = api.find_status_condition status.conditions t

  -- The loop that puts the new conditions, each after the old one of its type.
  unfoldable pub preserve_conditions :
      Time
      → Option MachineConfigPoolProgressInsightStatus
      → List Condition
      → List Condition
      → List Condition
  preserve_conditions wall previous acc [] = acc
  preserve_conditions wall previous acc (c ∷ cs) =
      preserve_conditions wall previous
        (api.set_status_condition wall (acc ++ as_list (previous_condition previous c.type)) c) cs

  unfoldable pub assess_pool_from_node_states :
      Time
      → String
      → ScopeType
      → Bool
      → List NodeState
      → Option MachineConfigPoolProgressInsightStatus
      → Time
      → MachineConfigPoolProgressInsightStatus
  assess_pool_from_node_states wall name scope paused nodes previous now =
      let summaries = calculate_node_summaries nodes in
      let assessment = calculate_pool_assessment paused nodes summaries in
      record {
        conditions =
            preserve_conditions wall previous []
              (determine_pool_conditions assessment summaries now);
        name = name;
        scope = scope;
        assessment = assessment;
        completion = calculate_pool_completion nodes;
        summaries = summaries;
      }
