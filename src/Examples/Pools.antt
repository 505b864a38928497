-- ===== src/Examples/Pools.antt =====
-- Pools.
use openshift_update_experie.Api.{pool_pending, worker_pool_scope}
use openshift_update_experie.Cli.{format_pool_completion}
use openshift_update_experie.Cli.Completion.{format_pool_completion_lem}
use openshift_update_experie.Client.{finished}
use openshift_update_experie.Cluster.{found}
use openshift_update_experie.Examples.Data.{answers, controller, helpers, three_nodes, worker_pool}
use openshift_update_experie.Meta.{condition_false, condition_true}
use openshift_update_experie.NodeState.{get_by_pool, is_applying, is_completed, scope_of_pool}
use openshift_update_experie.Pools.{
  assess_pool_from_node_states, calculate_node_summaries, calculate_pool_assessment,
  calculate_pool_completion, is_active, is_degraded, is_outdated, pool_healthy, pool_updating,
  reconcile_pool,
}
use openshift_update_experie.Pools.Bounds.{pool_completion_lem}
use openshift_update_experie.Pools.Settles.{reconcile_pool_settles}
use openshift_update_experie.Pools.Verdict.{
  assessment_of, calculate_pool_assessment_lem, pool_conditions_lem,
}
use openshift_update_experie.Prelude.{
  [], all, any, arith, count, false, if◌then◌else◌, length, none, not, refl, true, ◌&&◌, ◌*◌, ◌/◌,
  ◌<◌, ◌↔◌, ◌≡◌, ◌≤◌,
}

calculate_pool_assessment_lem_example :
    (0 < length three_nodes
      → calculate_pool_assessment false three_nodes (calculate_node_summaries three_nodes)
        ≡ assessment_of false three_nodes)
    × (calculate_pool_assessment false [] (calculate_node_summaries []) ≡ pool_pending)
calculate_pool_assessment_lem_example =
    calculate_pool_assessment_lem false three_nodes (omega arith)

pool_conditions_lem_example :
    ((pool_healthy
        (calculate_pool_assessment false three_nodes (calculate_node_summaries three_nodes))
        (calculate_node_summaries three_nodes)
        90).status
      ≡ (if any is_degraded three_nodes then condition_false else condition_true))
    × ((pool_updating
          (calculate_pool_assessment false three_nodes (calculate_node_summaries three_nodes))
          (calculate_node_summaries three_nodes)
          90).status
        ≡ (if any is_degraded three_nodes
            then (if any (λ n. is_applying n.phase) three_nodes
                then condition_true
                else condition_false)
            else (if not (false && any is_outdated three_nodes) && any is_active three_nodes
                then condition_true
                else condition_false)))
pool_conditions_lem_example = pool_conditions_lem false three_nodes 90 (omega arith)

pool_completion_lem_example :
    (calculate_pool_completion three_nodes ≤ 100)
    × (0 < length three_nodes
        → calculate_pool_completion three_nodes
          ≡ count (λ n. is_completed n.phase) three_nodes * 100 / length three_nodes)
    × (0 < length three_nodes
        → (calculate_pool_completion three_nodes ≡ 100)
          ↔ (all (λ n. is_completed n.phase) three_nodes ≡ true))
    × (calculate_pool_completion [] ≡ 0)
pool_completion_lem_example = pool_completion_lem three_nodes (omega arith)

reconcile_pool_settles_example :
    reconcile_pool helpers
      (λ old status. true)
      200
      190
      (found worker_pool)
      (found (
        assess_pool_from_node_states helpers 100 worker_pool.name
          (scope_of_pool worker_pool.name)
          worker_pool.paused
          (get_by_pool controller.state_store worker_pool.name)
          none
          90))
      controller.state_store
      answers
    ≡ ([], finished)
reconcile_pool_settles_example =
    reconcile_pool_settles helpers (λ old status. true) 100 200 90 190 worker_pool
      controller.state_store answers none (λ s. refl)

format_pool_completion_lem_example :
    let done = count (λ n. is_completed n.phase) three_nodes in
    let shown = format_pool_completion (
      assess_pool_from_node_states helpers 100 "worker" worker_pool_scope false three_nodes none
        90) in
    (shown.0 ≡ done * 100 / length three_nodes)
    × (shown.2 ≡ length three_nodes)
    × (shown.1 ≤ done)
    × ((shown.1 ≡ done) ↔ (done * 100 / length three_nodes * length three_nodes ≡ done * 100))
format_pool_completion_lem_example =
    format_pool_completion_lem helpers 100 90 "worker" worker_pool_scope false three_nodes none
      (omega arith) (omega arith)
