-- ===== src/NodeState/Controller/Frame.antt =====
-- Induction over the course of a reconciliation (internal/controller/nodestate/impl.go).
use openshift_update_experie.Prelude.{
  String, ◌≡◌, refl, sym, subst, Bool, true, false, List, Option, some, if◌then◌else◌, ◌==◌,
}
use openshift_update_experie.Meta.{Time, Condition, ConditionsApi}
use openshift_update_experie.Mco.{Node, MachineConfigPool}
use openshift_update_experie.Cluster.{GetResult, ClusterVersion, found, not_found, get_error}
use openshift_update_experie.Client.{finished}
use openshift_update_experie.NodeState.State.{NodeState}
use openshift_update_experie.NodeState.Assess.{evaluate, evaluate_node}
use openshift_update_experie.NodeState.States.{get_state}
use openshift_update_experie.NodeState.Caches.{SelectorApi, which_mcp, version_for}
use openshift_update_experie.NodeState.Channel.{
  Channel, Select, Notified, notify, delivered, cancelled, dropped, send_panics,
}
use openshift_update_experie.NodeState.Controller.State.{Controller, Reads}
use openshift_update_experie.NodeState.Controller.Reconcile.{
  Reconciled, reconciled, controller_after, forget_node, notify_pool, notify_both, store_evaluated,
  commit, reconcile, unchanged, tell_pool, tell_node, with_node, with_pool, evaluate_in,
  first_version, conditions_of,
}

-- Whose state it is, and in which pool.
evaluate-names :
    (conditions : ConditionsApi) (group : String) (wall : Time) (node : Node)
    (pool : MachineConfigPool) (version_of : String → Option String) (desired : String)
    (existing : List Condition) (now : Time)
    → let state = evaluate conditions group wall node pool version_of desired existing now in
      (state.pool_ref.name ≡ pool.name) × (state.name ≡ node.name)
unfolding evaluate
evaluate-names conditions group wall node pool version_of desired existing now = (refl, refl)

module _ (selectors : SelectorApi) (P : Controller selectors → Type 0) where
  -- A property that a send to a pool keeps.
  abbrev pub KeptByPool : Select → String → Type 0
  KeptByPool s pool =
      (d : Controller selectors) (ch : Channel)
      → P d
      → notify s d.mcp_insight_events pool ≡ delivered ch
      → P (record d { mcp_insight_events = ch })

  abbrev pub KeptByNode : Select → String → Type 0
  KeptByNode s node =
      (d : Controller selectors) (ch : Channel)
      → P d
      → notify s d.node_insight_events node ≡ delivered ch
      → P (record d { node_insight_events = ch })

  unless :
      (b : Bool) (x y : Reconciled selectors)
      → P (controller_after x)
      → P (controller_after y)
      → P (controller_after (if b then x else y))
  unless true x y p q = p
  unless false x y p q = q

  tell_pool-elim :
      (s : Select) (c : Controller selectors) (pool : String) (n : Notified)
      → notify s c.mcp_insight_events pool ≡ n
      → P c
      → KeptByPool s pool
      → P (controller_after (tell_pool selectors c pool n))
  tell_pool-elim s c pool (delivered ch) e p k = k c ch p e
  tell_pool-elim s c pool cancelled e p k = p
  tell_pool-elim s c pool dropped e p k = p
  tell_pool-elim s c pool send_panics e p k = p

  notify_pool-elim :
      (s : Select) (c : Controller selectors) (pool : String)
      → P c
      → KeptByPool s pool
      → P (controller_after (notify_pool selectors s c pool))
  unfolding notify_pool
  notify_pool-elim s c pool p k =
      unless (pool == "") (reconciled c finished)
        (tell_pool selectors c pool (notify s c.mcp_insight_events pool)) p
        (tell_pool-elim s c pool (notify s c.mcp_insight_events pool) refl p k)

  tell_node-elim :
      (s t : Select) (c : Controller selectors) (node pool : String) (n : Notified)
      → notify s c.node_insight_events node ≡ n
      → P c
      → KeptByNode s node
      → KeptByPool t pool
      → P (controller_after (tell_node selectors t c pool n))
  tell_node-elim s t c node pool (delivered ch) e p k l =
      notify_pool-elim t (record c { node_insight_events = ch }) pool (k c ch p e) l
  tell_node-elim s t c node pool cancelled e p k l = notify_pool-elim t c pool p l
  tell_node-elim s t c node pool dropped e p k l = notify_pool-elim t c pool p l
  tell_node-elim s t c node pool send_panics e p k l = p

  pub notify_both-elim :
      (s t : Select) (c : Controller selectors) (node pool : String)
      → P c
      → KeptByNode s node
      → KeptByPool t pool
      → P (controller_after (notify_both selectors s t c node pool))
  unfolding notify_both
  notify_both-elim s t c node pool p k l =
      tell_node-elim s t c node pool (notify s c.node_insight_events node) refl p k l

  module _ (conditions : ConditionsApi) (group : String) (wall now : Time) (s t : Select)
      (reads : Reads) (c : Controller selectors) (name : String) where
    -- A new state of the node in the pool.
    abbrev Stored : Node → MachineConfigPool → Type 0
    Stored node pool =
        (state : NodeState)
        → (state.pool_ref.name ≡ pool.name) × (state.name ≡ node.name)
        → P (store_evaluated selectors c name (get_state c.state_store name) state)
          × KeptByNode s node.name
          × KeptByPool t pool.name

    commit-elim :
        (node : Node) (pool : MachineConfigPool) (state : NodeState)
        → (state.pool_ref.name ≡ pool.name) × (state.name ≡ node.name)
        → P c
        → Stored node pool
        → P (
            controller_after
              (commit selectors s t c name node (get_state c.state_store name) (some state)))
    unfolding commit
    commit-elim node pool state e p stored =
        let (q, k, l) = stored state e in
        unless (unchanged (get_state c.state_store name) state) (reconciled c finished)
          (notify_both selectors s t
            (store_evaluated selectors c name (get_state c.state_store name) state) node.name
            state.pool_ref.name)
          p
          (notify_both-elim s t
            (store_evaluated selectors c name (get_state c.state_store name) state) node.name
            state.pool_ref.name q k (subst (λ w. KeptByPool t w) (sym e.0) l))

    evaluate_in-elim :
        (node : Node) (pool : MachineConfigPool) (cv : GetResult ClusterVersion)
        → P c
        → Stored node pool
        → P (
            controller_after
              (evaluate_in selectors conditions group wall now s t c name node pool cv))
    unfolding evaluate_node
    evaluate_in-elim node pool (get_error e) p stored = p
    evaluate_in-elim node pool not_found p stored = p
    evaluate_in-elim node pool (found cv) p stored =
        commit-elim node pool
          (evaluate conditions group wall node pool (version_for c.machine_config_versions)
            (first_version cv.history) (conditions_of (get_state c.state_store name)) now)
          (evaluate-names conditions group wall node pool (version_for c.machine_config_versions)
            (first_version cv.history) (conditions_of (get_state c.state_store name)) now)
          p stored

    with_pool-elim :
        (node : Node) (r : GetResult MachineConfigPool)
        → P c
        → ((pool : MachineConfigPool) → r ≡ found pool → Stored node pool)
        → P (
            controller_after
              (with_pool selectors conditions group wall now s t reads c name node r))
    with_pool-elim node (get_error e) p stored = p
    with_pool-elim node not_found p stored = p
    with_pool-elim node (found pool) p stored =
        evaluate_in-elim node pool reads.get_cluster_version p (stored pool refl)

    with_node-elim :
        (r : GetResult Node)
        → P c
        → P (forget_node selectors c name)
        → ((node : Node) (pool : MachineConfigPool)
            → r ≡ found node
            → reads.get_pool (which_mcp selectors c.mcp_selectors node.labels) ≡ found pool
            → Stored node pool)
        → P (controller_after (with_node selectors conditions group wall now s t reads c name r))
    with_node-elim (get_error e) p forgotten stored = p
    with_node-elim not_found p forgotten stored = forgotten
    with_node-elim (found node) p forgotten stored =
        let mcp_name = which_mcp selectors c.mcp_selectors node.labels in
        unless (mcp_name == "") (reconciled (forget_node selectors c name) finished)
          (with_pool selectors conditions group wall now s t reads c name node
            (reads.get_pool mcp_name))
          forgotten
          (with_pool-elim node (reads.get_pool mcp_name) p (λ pool e. stored node pool refl e))

    -- What holds of the controller before, of the controller with the node forgotten, and of it with
    -- any new state of the node in the pool that was read, and is kept by the two sends, holds after
    -- a reconciliation.
    pub reconcile-elim :
        P c
        → P (forget_node selectors c name)
        → ((node : Node) (pool : MachineConfigPool)
            → reads.get_node ≡ found node
            → reads.get_pool (which_mcp selectors c.mcp_selectors node.labels) ≡ found pool
            → Stored node pool)
        → P (controller_after (reconcile selectors conditions group wall now s t reads c name))
    unfolding reconcile
    reconcile-elim p forgotten stored = with_node-elim reads.get_node p forgotten stored
