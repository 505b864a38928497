-- ===== src/NodeState/Controller/Reconcile.antt =====
-- `Reconcile` of the central controller.
use openshift_update_experie.Prelude.{
  ℕ, ◌+◌, String, Bool, false, List, [], ◌∷◌, Option, none, some, if◌then◌else◌, ◌==◌, eqb,
}
use openshift_update_experie.Meta.{Time, Condition, ConditionsApi}
use openshift_update_experie.Mco.{Node, MachineConfigPool}
use openshift_update_experie.Cluster.{
  ClusterVersion, UpdateHistory, GetResult, found, not_found, get_error,
}
use openshift_update_experie.Client.{Outcome, finished, failed}
use openshift_update_experie.NodeState.State.{NodeState}
use openshift_update_experie.NodeState.Assess.{evaluate_node}
use openshift_update_experie.NodeState.States.{get_state, set_state, delete_state}
use openshift_update_experie.NodeState.Caches.{SelectorApi, which_mcp, version_for}
use openshift_update_experie.NodeState.Channel.{
  Select, Notified, notify, delivered, cancelled, dropped, send_panics,
}
use openshift_update_experie.NodeState.Controller.State.{Controller, Reads, int64}

-- `reconciled`: the function returned. `panicked`: a send on a closed channel panicked, with the
-- state that it left.
pub data Reconciled (api : SelectorApi) : Type 0 where
  reconciled panicked : Controller api → Outcome → Reconciled api

abbrev pub controller_after : {api : SelectorApi} → Reconciled api → Controller api
controller_after (reconciled c o) = c
controller_after (panicked c o) = c

abbrev pub outcome_after : {api : SelectorApi} → Reconciled api → Outcome
outcome_after (reconciled c o) = o
outcome_after (panicked c o) = o

-- `cv.Status.History[0].Version`, if there is one.
abbrev pub first_version : List UpdateHistory → String
first_version [] = ""
first_version (h ∷ hs) = h.version

abbrev pub conditions_of : Option NodeState → List Condition
conditions_of none = []
conditions_of (some state) = state.conditions

abbrev pub unchanged : Option NodeState → NodeState → Bool
unchanged none state = false
unchanged (some existing) state = eqb existing.state_hash state.state_hash

abbrev pub next_count : Option NodeState → ℕ
next_count none = 1
next_count (some existing) = int64 (existing.evaluation_count + 1)

module _ (selectors : SelectorApi) where
  abbrev pub forget_node : Controller selectors → String → Controller selectors
  forget_node c name = record c { state_store = (delete_state c.state_store name).0 }

  -- The two notifications; an error only goes to the log and the metrics.
  abbrev pub tell_pool : Controller selectors → String → Notified → Reconciled selectors
  tell_pool c pool (delivered ch) = reconciled (record c { mcp_insight_events = ch }) finished
  tell_pool c pool cancelled = reconciled c finished
  tell_pool c pool dropped = reconciled c finished
  tell_pool c pool send_panics = panicked c finished

  unfoldable pub notify_pool : Select → Controller selectors → String → Reconciled selectors
  notify_pool s c pool =
      if pool == ""
      then reconciled c finished
      else tell_pool c pool (notify s c.mcp_insight_events pool)

  abbrev pub tell_node : Select → Controller selectors → String → Notified → Reconciled selectors
  tell_node s c pool (delivered ch) = notify_pool s (record c { node_insight_events = ch }) pool
  tell_node s c pool cancelled = notify_pool s c pool
  tell_node s c pool dropped = notify_pool s c pool
  tell_node s c pool send_panics = panicked c finished

  unfoldable pub notify_both :
      Select → Select → Controller selectors → String → String → Reconciled selectors
  notify_both s t c node pool = tell_node t c pool (notify s c.node_insight_events node)

  -- The controller with a new state of a node in its store.
  unfoldable pub store_evaluated :
      Controller selectors → String → Option NodeState → NodeState → Controller selectors
  store_evaluated c name existing state = record c {
    state_store =
        set_state c.state_store name (record state { evaluation_count = next_count existing });
    total_evaluations = int64 (c.total_evaluations + 1);
  }

  -- From the comparison of the hashes on.
  unfoldable pub commit :
      Select
      → Select
      → Controller selectors
      → String
      → Node
      → Option NodeState
      → Option NodeState
      → Reconciled selectors
  commit s t c name node existing none = reconciled c finished
  commit s t c name node existing (some state) =
      if unchanged existing state
      then reconciled c finished
      else notify_both s t (store_evaluated c name existing state) node.name state.pool_ref.name

  module _ (conditions : ConditionsApi) (group : String) (wall now : Time) (s t : Select) where
    abbrev pub evaluate_in :
        Controller selectors
        → String
        → Node
        → MachineConfigPool
        → GetResult ClusterVersion
        → Reconciled selectors
    evaluate_in c name node pool (get_error e) = reconciled c (failed e)
    evaluate_in c name node pool not_found = reconciled c (failed "not found")
    evaluate_in c name node pool (found cv) =
        commit s t c name node (get_state c.state_store name) (
          evaluate_node conditions group wall (some node) (some pool)
            (version_for c.machine_config_versions) (first_version cv.history)
            (conditions_of (get_state c.state_store name)) now)

    abbrev pub with_pool :
        Reads
        → Controller selectors
        → String
        → Node
        → GetResult MachineConfigPool
        → Reconciled selectors
    with_pool reads c name node (get_error e) = reconciled c (failed e)
    with_pool reads c name node not_found = reconciled c finished
    with_pool reads c name node (found pool) =
        evaluate_in c name node pool reads.get_cluster_version

    abbrev pub with_node :
        Reads → Controller selectors → String → GetResult Node → Reconciled selectors
    with_node reads c name (get_error e) = reconciled c (failed e)
    with_node reads c name not_found = reconciled (forget_node c name) finished
    with_node reads c name (found node) =
        let mcp_name = which_mcp selectors c.mcp_selectors node.labels in
        if mcp_name == ""
        then reconciled (forget_node c name) finished
        else with_pool reads c name node (reads.get_pool mcp_name)

    unfoldable pub reconcile : Reads → Controller selectors → String → Reconciled selectors
    reconcile reads c name = with_node reads c name reads.get_node
