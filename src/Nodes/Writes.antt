-- ===== src/Nodes/Writes.antt =====
-- What becomes of a node's insight: written by internal/controller/nodes/impl.go, or by the central
-- controller with internal/controller/nodeprogressinsight_controller.go behind it.
use openshift_update_experie.Prelude.{
  ℕ, String, ◌≡◌, refl, ap, ◌∙◌, ◌⊎◌, inl, inr, Bool, false, List, [], ◌∷◌, Option, none, some,
  ◌==◌, eq_iff, if◌then◌else◌,
}
use openshift_update_experie.Meta.{Time, ConditionsApi}
use openshift_update_experie.Mco.{Node, MachineConfigPool}
use openshift_update_experie.Api.{NodeProgressInsightStatus}
use openshift_update_experie.Cluster.{ClusterVersion, found, not_found}
use openshift_update_experie.Client.{Answers, Call, delete, update_status, Outcome, finished}
use openshift_update_experie.NodeState.{
  NodeState, SelectorApi, evaluate, get_state, insight_of_state, which_mcp, version_for,
}
use openshift_update_experie.NodeState.Channel.{Select}
use openshift_update_experie.NodeState.Controller.{
  Controller, Reads, reconcile, controller_after, commit, unchanged, store_evaluated, notify_both,
  first_version, conditions_of, next_count,
}
use openshift_update_experie.NodeState.Controller.Frame.{notify_both-elim}
use openshift_update_experie.NodeState.Controller.Commit.{
  reconcile_forgets, result-commit, stored_state,
}
use openshift_update_experie.Nodes.Assessment.{assess_existing}
use openshift_update_experie.Nodes.Reconcile.{
  Reconciler, NodeReads, reconcile_node, write_node, warm_up, write_ended, status_ended,
}
use openshift_update_experie.Nodes.Provided.{
  node_state_to_insight_status, reconcile_state, reconcile_with_provider,
}
use openshift_update_experie.Nodes.Agreement.{Mirrors, assess_existing_lem}

-- The sends leave the store alone, whether they deliver, drop or panic.
notify_both-store :
    (selectors : SelectorApi) (s t : Select) (c : Controller selectors) (node pool : String)
    → (controller_after (notify_both selectors s t c node pool)).state_store ≡ c.state_store
notify_both-store selectors s t c node pool =
    notify_both-elim selectors (λ d. d.state_store ≡ c.state_store) s t c node pool refl
      (λ d ch p n. p) (λ d ch p n. p)

-- What is written behind the central controller is its insight, without the estimate; neither shows
-- how often the node was evaluated.
node_state_to_insight_status_lem :
    (state : NodeState) (n : ℕ)
    → node_state_to_insight_status (record state { evaluation_count = n })
      ≡ record (insight_of_state state) { estimated_to_complete = none }
unfolding node_state_to_insight_status insight_of_state
node_state_to_insight_status_lem state n = refl

module _ (selectors : SelectorApi) (conditions : ConditionsApi) (group : String) (wall now : Time)
    (s t : Select) (reads : Reads) (c : Controller selectors) (name : String)
    (same : Option NodeProgressInsightStatus → NodeProgressInsightStatus → Bool) (answers : Answers)
    (r : Reconciler selectors) (node_reads : NodeReads) (objects : node_reads.objects ≡ reads)
    (mirrors : Mirrors selectors (warm_up selectors r node_reads) c)
    (old : NodeProgressInsightStatus) (found_old : node_reads.get_insight ≡ found old) where
  abbrev after : Controller selectors
  after = controller_after (reconcile selectors conditions group wall now s t reads c name)

  abbrev by_node_controller : List (Call NodeProgressInsightStatus) × Outcome
  by_node_controller =
      (reconcile_node selectors conditions group same wall now answers r node_reads).1

  abbrev by_provider : List (Call NodeProgressInsightStatus) × Outcome
  by_provider = reconcile_with_provider after name (found old) answers

  module _ (node : Node) (pool : MachineConfigPool) (cv : ClusterVersion)
      (found_node : reads.get_node ≡ found node)
      (selected : (which_mcp selectors c.mcp_selectors node.labels == "") ≡ false)
      (found_pool : reads.get_pool (which_mcp selectors c.mcp_selectors node.labels) ≡ found pool)
      (found_version : reads.get_cluster_version ≡ found cv) where
    abbrev existing : Option NodeState
    existing = get_state c.state_store name

    abbrev state : NodeState
    state =
        evaluate conditions group wall node pool (version_for c.machine_config_versions)
          (first_version cv.history) (conditions_of existing) now

    kept_in_store :
        unchanged existing state ≡ false
        → get_state after.state_store name
          ≡ some (record state { evaluation_count = next_count existing })
    unfolding commit
    kept_in_store h =
        let stored = store_evaluated selectors c name existing state in
        let told : reconcile selectors conditions group wall now s t reads c name
            ≡ notify_both selectors s t stored node.name state.pool_ref.name =
          result-commit selectors conditions group wall now s t reads c name node pool cv found_node
            selected found_pool found_version
          ∙ rw h refl in
        ap (λ d. get_state (controller_after d).state_store name) told
        ∙ ap (λ store. get_state store name)
            (notify_both-store selectors s t stored node.name state.pool_ref.name)
        ∙ stored_state selectors c name existing state

    node_controller_writes :
        old.conditions ≡ conditions_of existing
        → by_node_controller ≡ write_node same answers (some old) (insight_of_state state)
    unfolding reconcile_node
    node_controller_writes h =
        let versions = version_for c.machine_config_versions in
        let desired = first_version cv.history in
        let as_read : by_node_controller
            ≡ write_node same answers (some old) (
                assess_existing conditions group wall node pool versions desired old.conditions
                  now) =
          rw
            (
              objects, found_old, found_node, mirrors.0, selected, found_pool, found_version,
              mirrors.1,
            )
            refl in
        as_read
        ∙ ap (write_node same answers (some old)) (
            assess_existing_lem conditions group wall node pool versions desired old.conditions now
            ∙ ap
                (λ cs.
                  insight_of_state
                    (evaluate conditions group wall node pool versions desired cs now))
                h)

    provider_writes :
        unchanged existing state ≡ false
        → by_provider ≡ (
          update_status (record (insight_of_state state) { estimated_to_complete = none }) ∷ [],
          write_ended answers.on_update,
        )
    unfolding reconcile_with_provider reconcile_state
    provider_writes h = rw (kept_in_store h) (
        ap (λ status. (update_status status ∷ [], write_ended answers.on_update))
          (node_state_to_insight_status_lem state (next_count existing)))

    -- Both ways to keep a node's insight agree on a state that has changed: with the caches and the
    -- conditions the same, the node controller writes, if it differs from what it has read, the
    -- insight of the central evaluation, and the insight controller behind the central controller
    -- writes that insight without its estimate.
    pub both_ways_agree :
        old.conditions ≡ conditions_of existing
        → unchanged existing state ≡ false
        → let status = insight_of_state state in
          (by_node_controller ≡ (
            if same (some old) status
            then ([], finished)
            else (update_status status ∷ [], status_ended answers.on_update)))
          × (by_provider ≡ (
            update_status (record status { estimated_to_complete = none }) ∷ [],
            write_ended answers.on_update,
          ))
    both_ways_agree h k = (node_controller_writes h, provider_writes k)

  -- The node is gone, or no pool selects it.
  abbrev pub Left : Type 0
  Left =
      (reads.get_node ≡ not_found)
      ⊎ ((node : Node) × (reads.get_node ≡ found node)
          × (which_mcp selectors c.mcp_selectors node.labels ≡ ""))

  node_controller_deletes : Left → by_node_controller ≡ (delete ∷ [], write_ended answers.on_delete)
  unfolding reconcile_node
  node_controller_deletes (inl e) = rw (objects, found_old, e) refl
  node_controller_deletes (inr (node, e, f)) =
      rw (objects, found_old, e, mirrors.0, (eq_iff _ _).1 f) refl

  -- Both ways delete the insight, and make no other call, once its node is gone or belongs to no
  -- pool and the central controller has reconciled it.
  pub left_node_is_deleted :
      Left
      → (by_node_controller ≡ (delete ∷ [], write_ended answers.on_delete))
        × (by_provider ≡ (delete ∷ [], write_ended answers.on_delete))
  unfolding reconcile_with_provider reconcile_state
  left_node_is_deleted h = (
    node_controller_deletes h,
    rw (reconcile_forgets selectors conditions group wall now s t reads c name h).0 refl,
  )
