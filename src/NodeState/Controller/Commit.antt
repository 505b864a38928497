-- ===== src/NodeState/Controller/Commit.antt =====
-- What a reconciliation stores and whom it tells (internal/controller/nodestate/impl.go).
use openshift_update_experie.Prelude.{
  String, ◌≡◌, refl, ap, ◌∙◌, ◌⊎◌, inl, inr, true, false, Option, none, some, ◌==◌, eq_iff, eq_refl,
}
use openshift_update_experie.Meta.{Time, ConditionsApi}
use openshift_update_experie.Mco.{Node, MachineConfigPool}
use openshift_update_experie.Cluster.{ClusterVersion, found, not_found}
use openshift_update_experie.Client.{finished}
use openshift_update_experie.NodeState.State.{NodeState}
use openshift_update_experie.NodeState.Assess.{evaluate, evaluate_node}
use openshift_update_experie.NodeState.States.{get_state}
use openshift_update_experie.NodeState.Walks.{get_state-after, get_state-delete_state}
use openshift_update_experie.NodeState.Caches.{SelectorApi, which_mcp, version_for}
use openshift_update_experie.NodeState.Channel.{Select}
use openshift_update_experie.NodeState.Controller.State.{Controller, Reads}
use openshift_update_experie.NodeState.Controller.Reconcile.{
  Reconciled, reconciled, controller_after, forget_node, store_evaluated, commit, reconcile,
  unchanged, first_version, conditions_of, next_count,
}

pub stored_state :
    (selectors : SelectorApi) (c : Controller selectors) (name : String)
    (existing : Option NodeState) (state : NodeState)
    → get_state (store_evaluated selectors c name existing state).state_store name
      ≡ some (record state { evaluation_count = next_count existing })
unfolding store_evaluated
stored_state selectors c name existing state =
    (get_state-after c.state_store name name
      (record state { evaluation_count = next_count existing })).0
    ∙ rw (eq_refl name) refl

module _ (selectors : SelectorApi) (conditions : ConditionsApi) (group : String) (wall now : Time)
    (s t : Select) (reads : Reads) (c : Controller selectors) (name : String) where
  abbrev result : Reconciled selectors
  result = reconcile selectors conditions group wall now s t reads c name

  gone : reads.get_node ≡ not_found → result ≡ reconciled (forget_node selectors c name) finished
  unfolding reconcile
  gone h = rw h refl

  unpooled :
      (node : Node)
      → reads.get_node ≡ found node
      → which_mcp selectors c.mcp_selectors node.labels ≡ ""
      → result ≡ reconciled (forget_node selectors c name) finished
  unfolding reconcile
  unpooled node h e = rw (h, (eq_iff _ _).1 e) refl

  -- A node that is gone, or that no pool selects, has no state afterwards; nothing else changes, and
  -- nobody is told.
  pub reconcile_forgets :
      ((reads.get_node ≡ not_found)
        ⊎ ((node : Node) × (reads.get_node ≡ found node)
            × (which_mcp selectors c.mcp_selectors node.labels ≡ "")))
      → (get_state (controller_after result).state_store name ≡ none)
        × (result ≡ reconciled (forget_node selectors c name) finished)
  reconcile_forgets h =
      let ends : result ≡ reconciled (forget_node selectors c name) finished = elim h [
        | inl e ↦ gone e
        | inr p ↦ unpooled p.0 p.1 p.2
      ] in
      (
        ap (λ r. get_state (controller_after r).state_store name) ends
            ∙ get_state-delete_state c.state_store name name
            ∙ rw (eq_refl name) refl,
        ends,
      )

  module _ (node : Node) (pool : MachineConfigPool) (cv : ClusterVersion)
      (found_node : reads.get_node ≡ found node)
      (selected : (which_mcp selectors c.mcp_selectors node.labels == "") ≡ false)
      (found_pool : reads.get_pool (which_mcp selectors c.mcp_selectors node.labels) ≡ found pool)
      (found_version : reads.get_cluster_version ≡ found cv) where
    abbrev existing : Option NodeState
    existing = get_state c.state_store name

    -- The new state of the node.
    abbrev state : NodeState
    state =
        evaluate conditions group wall node pool (version_for c.machine_config_versions)
          (first_version cv.history) (conditions_of existing) now

    pub result-commit : result ≡ commit selectors s t c name node existing (some state)
    unfolding reconcile evaluate_node
    result-commit = rw (found_node, selected, found_pool, found_version) refl

    -- If the new state hashes as the stored one, nothing changes and nobody is told.
    reconcile_unchanged : unchanged existing state ≡ true → result ≡ reconciled c finished
    unfolding commit
    reconcile_unchanged h = result-commit ∙ rw h refl
