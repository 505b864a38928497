-- ===== src/Examples/Reached.antt =====
-- The central controller in a run, and the two ways to keep a node's insight.
use openshift_update_experie.Prelude.{
  String, ◌≡◌, refl, sym, ap, Bool, true, false, [], ◌∷◌, Option, none, some, ◌==◌, arith, inl,
}
use openshift_update_experie.Mco.{Node, MachineConfigPool, get?}
use openshift_update_experie.Api.{NodeProgressInsightStatus}
use openshift_update_experie.Cluster.{GetResult, found, not_found, get_error}
use openshift_update_experie.Client.{delete, update_status, finished}
use openshift_update_experie.NodeState.{
  NodeState, evaluate, evaluate_node, convert_state_to_insight, insight_of_state, get_state,
  which_mcp, which_from, version_for,
}
use openshift_update_experie.NodeState.Controller.{
  Controller, Reads, reconcile, controller_after, first_version, conditions_of, initialize_caches,
  new_controller, notify_all_downstream, handle_machine_config_pool,
  handle_deleted_machine_config_pool, handle_machine_config, handle_deleted_machine_config,
}
use openshift_update_experie.NodeState.Controller.System.{IsAnswering, starts, later, reconciles}
use openshift_update_experie.NodeState.Controller.Invariant.{IsSound, Reach-IsSound}
use openshift_update_experie.NodeState.Controller.Telling.{notify_all_downstream_lem}
use openshift_update_experie.Nodes.{
  Reconciler, NodeReads, reconcile_node, warm_up, assess_node, handle_pool, handle_deleted_pool,
  handle_config, handle_deleted_config, reconcile_with_provider,
}
use openshift_update_experie.Nodes.Agreement.{Alike, assess_node_agrees, handlers_agree}
use openshift_update_experie.Nodes.Writes.{both_ways_agree, left_node_is_deleted}
use openshift_update_experie.Examples.Data.{
  helpers, pairs, draining_node, worker_pool, labelled_config, versions, version_of_config,
  cluster_version, controller, fresh_controller, reads_worker, reads_gone, waiting, insight_with,
  answers,
}

abbrev node_of : GetResult Node → String
node_of (found node) = node.name
node_of not_found = ""
node_of (get_error e) = ""

abbrev pool_of : GetResult MachineConfigPool → String
pool_of (found pool) = pool.name
pool_of not_found = ""
pool_of (get_error e) = ""

reads_worker-IsAnswering : IsAnswering reads_worker "worker-0"
reads_worker-IsAnswering = record {
  node_named = λ node e. sym (ap node_of e);
  pool_named = λ asked pool e. ap (λ r. pool_of r == "") (sym e);
}

abbrev started : Controller pairs
started = (initialize_caches pairs (new_controller pairs) (some (worker_pool ∷ [])) none).0

Reach-IsSound_example : IsSound pairs (
    controller_after
      (reconcile pairs helpers "g" 100 90 waiting waiting reads_worker started "worker-0"))
Reach-IsSound_example = Reach-IsSound pairs (
    later (starts (some (worker_pool ∷ [])) none) (
      reconciles helpers "g" 100 90 waiting waiting reads_worker "worker-0"
        reads_worker-IsAnswering))

notify_all_downstream_lem_example :
    (controller_after (
      notify_all_downstream pairs
        (λ name. waiting)
        (λ name. waiting)
        (λ names. names)
        controller)).node_insight_events.queue
    ≡ "worker-9" ∷ "worker-0" ∷ "worker-2" ∷ []
notify_all_downstream_lem_example =
    notify_all_downstream_lem pairs (λ name. waiting) (λ name. waiting) (λ names. names) controller
      (λ name. refl) refl (omega arith)

assess_node_agrees_example :
    assess_node helpers "g" 100
      (some draining_node)
      (some worker_pool)
      version_of_config
      "4.19.0"
      []
      90
    ≡ convert_state_to_insight (
        evaluate_node helpers "g" 100
          (some draining_node)
          (some worker_pool)
          version_of_config
          "4.19.0"
          []
          90)
assess_node_agrees_example =
    assess_node_agrees helpers "g" 100 (some draining_node) (some worker_pool) version_of_config
      "4.19.0" [] 90

-- A node controller with the caches of the central one.
abbrev reconciler : Reconciler pairs
reconciler = record {
  warmed_up = true;
  mcp_selectors = controller.mcp_selectors;
  machine_config_versions = versions;
}

handlers_agree_example :
    Alike pairs
      (handle_pool pairs reconciler worker_pool (some (draining_node ∷ [])))
      (handle_machine_config_pool pairs controller worker_pool (some (draining_node ∷ [])))
    × Alike pairs (handle_deleted_pool pairs reconciler worker_pool (some (draining_node ∷ []))) (
        handle_deleted_machine_config_pool pairs controller worker_pool (some (draining_node ∷ [])))
    × Alike pairs
        (handle_config pairs reconciler labelled_config (some (draining_node ∷ [])))
        (handle_machine_config pairs controller labelled_config (some (draining_node ∷ [])))
    × Alike pairs
        (handle_deleted_config pairs reconciler labelled_config (some (draining_node ∷ [])))
        (handle_deleted_machine_config pairs controller labelled_config (some (draining_node ∷ [])))
handlers_agree_example =
    handlers_agree pairs reconciler controller (some (draining_node ∷ [])) (refl, refl) worker_pool
      labelled_config

abbrev never_same : Option NodeProgressInsightStatus → NodeProgressInsightStatus → Bool
never_same old status = false

abbrev node_reads : Reads → NodeReads
node_reads objects = record {
  list_pools = none;
  list_configs = none;
  get_insight = found (insight_with []);
  objects = objects;
}

-- The state of the node, evaluated for the first time.
abbrev first_state : NodeState
first_state =
    evaluate helpers "g" 100 draining_node worker_pool (version_for versions)
      (first_version cluster_version.history)
      (conditions_of (get_state fresh_controller.state_store "worker-0")) 90

both_ways_agree_example :
    ((reconcile_node pairs helpers "g" never_same 100 90 answers reconciler
        (node_reads reads_worker)).1
      ≡ (update_status (insight_of_state first_state) ∷ [], finished))
    × (reconcile_with_provider
          (controller_after (
            reconcile pairs helpers "g" 100 90 waiting waiting reads_worker fresh_controller
              "worker-0"))
          "worker-0"
          (found (insight_with []))
          answers
        ≡ (
          update_status (record (insight_of_state first_state) { estimated_to_complete = none })
              ∷ [],
          finished,
        ))
unfolding which_mcp which_from get_state get? warm_up
both_ways_agree_example =
    both_ways_agree pairs helpers "g" 100 90 waiting waiting reads_worker fresh_controller
      "worker-0" never_same answers reconciler (node_reads reads_worker) refl (refl, refl)
      (insight_with []) refl draining_node worker_pool cluster_version refl refl refl refl refl refl

left_node_is_deleted_example :
    ((reconcile_node pairs helpers "g" never_same 100 90 answers reconciler
        (node_reads reads_gone)).1
      ≡ (delete ∷ [], finished))
    × (reconcile_with_provider
          (controller_after
            (reconcile pairs helpers "g" 100 90 waiting waiting reads_gone controller "worker-0"))
          "worker-0"
          (found (insight_with []))
          answers
        ≡ (delete ∷ [], finished))
unfolding warm_up
left_node_is_deleted_example =
    left_node_is_deleted pairs helpers "g" 100 90 waiting waiting reads_gone controller "worker-0"
      never_same answers reconciler (node_reads reads_gone) refl (refl, refl) (insight_with []) refl
      (inl refl)
