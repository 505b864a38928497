-- ===== src/Examples/Nodes.antt =====
-- Nodes that are evaluated, and what the command shows of them.
use openshift_update_experie.Api.{
  NodeProgressInsightStatus, available_type, degraded_type, updating_reason, updating_type,
}
use openshift_update_experie.Cli.{assess_node}
use openshift_update_experie.Cli.Shown.{assess_node_shows_evaluation, displayed}
use openshift_update_experie.Examples.Data.{
  broken_node, degraded_node, draining_node, helpers, insight_with, version_of_config, worker_pool,
}
use openshift_update_experie.Mco.{
  check_condition, check_conditions, check_node_ready, desired_image_annotation_key, get?,
  is_desired_equal_to_pool, is_desired_image_equal_to_pool, is_image_annotation_equal_to_pool,
  is_layered, is_node_ready, is_node_unavailable, is_unavailable, machine_config_daemon_state_done,
  new_layered_node_state, set_desired_state_from_pool,
}
use openshift_update_experie.Mco.Availability.{
  image_matches, is_settled, is_unavailable_has_reason, is_unavailable_lem,
}
use openshift_update_experie.Mco.DesiredState.{set_desired_state_from_pool-is_desired_equal_to_pool}
use openshift_update_experie.Mco.Ready.{is_bad}
use openshift_update_experie.Meta.{Condition}
use openshift_update_experie.Meta.Laws.{contents}
use openshift_update_experie.NodeState.{
  convert_state_to_insight, determine_conditions, evaluate, evaluate_is_updated,
  evaluate_is_updating, evaluate_node, is_node_degraded, phase_completed,
}
use openshift_update_experie.NodeState.Phases.{
  applied_drain, desired_drain, mcd_state, no_estimate_in_trouble, phase_completed_lem,
}
use openshift_update_experie.NodeState.Repeat.{
  determine_conditions-stable, evaluated, first_unavailable_reorders,
}
use openshift_update_experie.NodeState.Verdict.{
  reason_of_phase, status_of_phase, transition_time, updating_condition_tells_phase,
}
use openshift_update_experie.Prelude.{
  [], any, false, inl, length, lookup, map, none, not, refl, some, true, ◌&&◌, ◌<◌, ◌||◌, ◌∷◌, ◌≡◌,
  ◌⊎◌,
}

updating_condition_tells_phase_example :
    (c : Condition) × (helpers.find_status_condition
        (determine_conditions helpers 100 worker_pool draining_node true false true false
          (new_layered_node_state draining_node)
          []
          90).0
        updating_type
      ≡ some c)
    × (c.status
        ≡ status_of_phase
            (determine_conditions helpers 100 worker_pool draining_node true false true false
              (new_layered_node_state draining_node)
              []
              90).2)
    × (c.reason
        ≡ updating_reason (
            reason_of_phase
              (determine_conditions helpers 100 worker_pool draining_node true false true false
                (new_layered_node_state draining_node)
                []
                90).2))
    × (c.last_transition_time
        ≡ transition_time
            (helpers.find_status_condition [] updating_type)
            (status_of_phase
              (determine_conditions helpers 100 worker_pool draining_node true false true false
                (new_layered_node_state draining_node)
                []
                90).2)
            90)
updating_condition_tells_phase_example =
    updating_condition_tells_phase helpers 100 worker_pool draining_node true false true false
      (new_layered_node_state draining_node) [] 90 refl

determine_conditions-stable_example :
    contents (
      evaluated helpers worker_pool draining_node true false true false
        (new_layered_node_state draining_node)
        200
        (evaluated helpers worker_pool draining_node true false true false
          (new_layered_node_state draining_node)
          100
          []
          90)
        190)
    ≡ contents (
        evaluated helpers worker_pool draining_node true false true false
          (new_layered_node_state draining_node)
          100
          []
          90)
determine_conditions-stable_example =
    determine_conditions-stable helpers worker_pool draining_node true false true false
      (new_layered_node_state draining_node) 100 200 [] 90 190 (inl refl)

first_unavailable_reorders_example :
    (map
        (λ c. c.type)
        (evaluated helpers worker_pool broken_node false false true false
          (new_layered_node_state draining_node)
          100
          []
          90)
      ≡ updating_type ∷ available_type ∷ degraded_type ∷ [])
    × (map
          (λ c. c.type)
          (evaluated helpers worker_pool broken_node false false true false
            (new_layered_node_state draining_node)
            200
            (evaluated helpers worker_pool broken_node false false true false
              (new_layered_node_state draining_node)
              100
              []
              90)
            190)
        ≡ updating_type ∷ degraded_type ∷ available_type ∷ [])
first_unavailable_reorders_example =
    first_unavailable_reorders helpers worker_pool broken_node false false true false
      (new_layered_node_state draining_node) 100 200 90 190 refl

phase_completed_lem_example :
    (evaluate_is_updated draining_node version_of_config "4.19.0" ≡ true
      → (evaluate helpers "g" 100 draining_node worker_pool version_of_config "4.19.0" [] 90).phase
        ≡ phase_completed)
    × ((evaluate helpers "g" 100 draining_node worker_pool version_of_config "4.19.0" [] 90).phase
          ≡ phase_completed
        → (evaluate_is_updated draining_node version_of_config "4.19.0" ≡ true)
          ⊎ ((evaluate_is_updating draining_node version_of_config "4.19.0" ≡ true)
              × (mcd_state draining_node ≡ machine_config_daemon_state_done)
              × ((desired_drain draining_node ≡ "") ⊎ (applied_drain draining_node ≡ ""))))
phase_completed_lem_example =
    phase_completed_lem helpers "g" 100 draining_node worker_pool version_of_config "4.19.0" [] 90

is_unavailable_has_reason_example :
    0 < length (is_unavailable (new_layered_node_state broken_node) worker_pool).0.unavailable
unfolding is_unavailable is_node_unavailable is_node_ready check_node_ready check_conditions
    check_condition is_desired_image_equal_to_pool is_image_annotation_equal_to_pool is_layered
is_unavailable_has_reason_example = is_unavailable_has_reason broken_node worker_pool refl

no_estimate_in_trouble_example :
    (i : NodeProgressInsightStatus) × (convert_state_to_insight (
        evaluate_node helpers "g" 100
          (some degraded_node)
          (some worker_pool)
          version_of_config
          "4.19.0"
          []
          90)
      ≡ some i)
    × (i.estimated_to_complete ≡ none)
unfolding is_node_degraded get? lookup
no_estimate_in_trouble_example =
    no_estimate_in_trouble helpers "g" 100 degraded_node worker_pool version_of_config "4.19.0" []
      90 (inl refl)

is_unavailable_lem_example : (is_unavailable (new_layered_node_state broken_node) worker_pool).1 ≡ (
    ((any is_bad broken_node.conditions || broken_node.unschedulable)
      || not (is_settled broken_node))
    && image_matches broken_node desired_image_annotation_key worker_pool)
is_unavailable_lem_example = is_unavailable_lem broken_node worker_pool

set_desired_state_from_pool-is_desired_equal_to_pool_example :
    (is_desired_equal_to_pool
      (set_desired_state_from_pool (new_layered_node_state broken_node) worker_pool)
      worker_pool).1
    ≡ true
set_desired_state_from_pool-is_desired_equal_to_pool_example =
    set_desired_state_from_pool-is_desired_equal_to_pool (new_layered_node_state broken_node)
      worker_pool

assess_node_shows_evaluation_example :
    assess_node helpers (
      insight_with
        (determine_conditions helpers 100 worker_pool draining_node true false true false
          (new_layered_node_state draining_node)
          []
          90).0)
    ≡ displayed
        (insight_with
          (determine_conditions helpers 100 worker_pool draining_node true false true false
            (new_layered_node_state draining_node)
            []
            90).0)
        (determine_conditions helpers 100 worker_pool draining_node true false true false
          (new_layered_node_state draining_node)
          []
          90).2
        false
        (true && not true)
assess_node_shows_evaluation_example =
    assess_node_shows_evaluation helpers 100 worker_pool draining_node true false true false
      (new_layered_node_state draining_node) [] 90
      (insight_with
        (determine_conditions helpers 100 worker_pool draining_node true false true false
          (new_layered_node_state draining_node) [] 90).0)
      refl refl
