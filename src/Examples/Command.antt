-- ===== src/Examples/Command.antt =====
-- What the command shows of the control plane and of nodes.
use openshift_update_experie.Prelude.{
  map, ◌+◌, ◌≤◌, ◌≡◌, true, false, [], ◌∷◌, none, length, String, Bool, List, not, count,
  if◌then◌else◌,
}
use openshift_update_experie.Meta.{condition_true}
use openshift_update_experie.Api.{ClusterOperatorProgressInsightStatus}
use openshift_update_experie.Operators.{assess_cluster_operator, is_version_updated, last_condition}
use openshift_update_experie.Cli.{
  Operator, operator_rows, assess_control_plane_status, status_summary, NodeDisplayData,
  assessment_completed, assessment_degraded, phase_state_updated, write_rows, no_omission, node_row,
  is_draining_phase, is_paused_phase, is_assessed_progressing,
}
use openshift_update_experie.Cli.Omitted.{in_trouble, write_rows_lem}
use openshift_update_experie.Cli.Picked.{IsSortedAs}
use openshift_update_experie.Cli.Sorted.{counted, assess_control_plane_status_lem}
use openshift_update_experie.Cli.Listed.{lists_updating}
use openshift_update_experie.Cli.Table.{Headed, operator_rows_lem}
use openshift_update_experie.Examples.Data.{
  helpers, progressing_operator, version_insight, plain_condition,
}
use openshift_update_experie.Examples.Versions.{half_done, done_operator}

-- One operator that is updating, and one that is done.
abbrev two_operators : List ClusterOperatorProgressInsightStatus
two_operators =
    assess_cluster_operator helpers 100 progressing_operator "4.19.0" []
    ∷ assess_cluster_operator helpers 100 done_operator "4.19.0" []
    ∷ []

assess_control_plane_status_lem_example :
    let o = (assess_control_plane_status helpers version_insight two_operators 90).operators in
    IsSortedAs helpers two_operators o
    × (counted (status_summary o) ≡ 2)
    × (length o.updated + length o.waiting + length o.updating ≤ 2)
assess_control_plane_status_lem_example =
    assess_control_plane_status_lem helpers version_insight two_operators 90

lists_updating_example :
    map
      (λ o. o.name)
      (assess_control_plane_status helpers version_insight two_operators 90).operators.updating
    ≡ progressing_operator.name ∷ []
unfolding is_version_updated last_condition
lists_updating_example =
    lists_updating helpers 100 200 90 version_insight half_done "4.19.0" (λ o. [])

abbrev shown_operator : Operator
shown_operator = record { name = "etcd"; condition = plain_condition "Updating" condition_true }

operator_rows_lem_example : Headed shown_operator 90 (operator_rows shown_operator 90)
operator_rows_lem_example = operator_rows_lem shown_operator 90

-- Of three nodes and with one row allowed, the second is left out and the third, degraded, is shown.
abbrev shown_node : String → Bool → Bool → NodeDisplayData
shown_node name degraded updated = record {
  name = name;
  assessment = if updated then assessment_completed else assessment_degraded;
  phase = phase_state_updated;
  version = "4.19.0";
  estimate = none;
  message = "";
  is_unavailable = false;
  is_degraded = degraded;
  is_updating = false;
  is_updated = updated;
}

abbrev three_nodes : List NodeDisplayData
three_nodes = shown_node "a" false true ∷ shown_node "b" false true ∷ shown_node "c" true false ∷ []

write_rows_lem_example :
    let (rows, o) = write_rows false 1 0 no_omission three_nodes in
    let omitted = shown_node "b" false true ∷ [] in
    (rows ≡ node_row (shown_node "a" false true) ∷ node_row (shown_node "c" true false) ∷ [])
    × (length rows + o.total ≡ 3)
    × (o.total ≡ 1)
    × (o.completed ≡ count (λ d. d.is_updated) omitted)
    × (o.outdated ≡ count (λ d. not d.is_updated) omitted)
    × (o.completed + o.outdated ≡ o.total)
    × (o.available ≡ count (λ d. not d.is_unavailable) omitted)
    × (o.draining ≡ count (λ d. is_draining_phase d.phase) omitted)
    × (o.excluded ≡ count (λ d. is_paused_phase d.phase) omitted)
    × (o.progressing ≡ count (λ d. is_assessed_progressing d.assessment) omitted)
    × (count in_trouble omitted ≡ 0)
write_rows_lem_example = write_rows_lem false 1 three_nodes
