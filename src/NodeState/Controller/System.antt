-- ===== src/NodeState/Controller/System.antt =====
-- The central controller among its callers (internal/controller/nodestate/impl.go): the steps that
-- it can take, in any order.
use openshift_update_experie.Prelude.{String, ◌≡◌, false, List, ◌∷◌, Option, ◌==◌}
use openshift_update_experie.Meta.{Time, ConditionsApi}
use openshift_update_experie.Mco.{Node, MachineConfigPool, MachineConfig}
use openshift_update_experie.Cluster.{found}
use openshift_update_experie.NodeState.Caches.{SelectorApi}
use openshift_update_experie.NodeState.Channel.{Select}
use openshift_update_experie.NodeState.Controller.State.{Controller, Reads, new_controller}
use openshift_update_experie.NodeState.Controller.Reconcile.{reconcile, controller_after}
use openshift_update_experie.NodeState.Controller.Handlers.{
  handle_machine_config_pool, handle_deleted_machine_config_pool, handle_machine_config,
  handle_deleted_machine_config, initialize_caches, shut_down,
}
use openshift_update_experie.NodeState.Controller.Broadcast.{notify_all_downstream}

-- What `Get` documents: the object has the name that it was asked for, and no object's name is empty.
pub record IsAnswering (reads : Reads) (name : String) : Type 0 where
  pub node_named : (node : Node) → reads.get_node ≡ found node → node.name ≡ name
  pub pool_named :
      (asked : String) (pool : MachineConfigPool)
      → reads.get_pool asked ≡ found pool
      → (pool.name == "") ≡ false

module _ (api : SelectorApi) where
  -- A reconciliation, an event, a broadcast, an event taken from a channel by the controller behind
  -- it, and the end of the process, which closes the channels once.
  pub data Step (c : Controller api) : Controller api → Type 0 where
    reconciles :
        (conditions : ConditionsApi) (group : String) (wall now : Time) (s t : Select)
        (reads : Reads) (name : String)
        → IsAnswering reads name
        → Step c (controller_after (reconcile api conditions group wall now s t reads c name))
    pool_event :
        (pool : MachineConfigPool) (nodes : Option (List Node))
        → Step c (handle_machine_config_pool api c pool nodes).0
    pool_deletion :
        (pool : MachineConfigPool) (nodes : Option (List Node))
        → Step c (handle_deleted_machine_config_pool api c pool nodes).0
    config_event :
        (mc : MachineConfig) (nodes : Option (List Node))
        → Step c (handle_machine_config api c mc nodes).0
    config_deletion :
        (mc : MachineConfig) (nodes : Option (List Node))
        → Step c (handle_deleted_machine_config api c mc nodes).0
    broadcast :
        (node_select pool_select : String → Select) (order : List String → List String)
        → Step c (controller_after (notify_all_downstream api node_select pool_select order c))
    takes_node_event :
        (name : String) (rest : List String)
        → c.node_insight_events.queue ≡ name ∷ rest
        → Step c (record c { node_insight_events = record c.node_insight_events { queue = rest } })
    takes_pool_event :
        (name : String) (rest : List String)
        → c.mcp_insight_events.queue ≡ name ∷ rest
        → Step c (record c { mcp_insight_events = record c.mcp_insight_events { queue = rest } })
    shuts_down : c.node_insight_events.closed ≡ false → Step c (shut_down api c)

  pub data Reach : Controller api → Type 0 where
    starts :
        (pools : Option (List MachineConfigPool)) (mcs : Option (List MachineConfig))
        → Reach (initialize_caches api (new_controller api) pools mcs).0
    later : {c d : Controller api} → Reach c → Step c d → Reach d
