-- ===== src/NodeState/Controller/Handlers.antt =====
-- The event handlers of the central controller, and what it does at its start and its end. An event
-- whose object has another type than expected is ignored, which the types here leave out.
use openshift_update_experie.Prelude.{
  String, Bool, true, false, List, [], ◌∷◌, map, Option, none, some, if◌then◌else◌,
}
use openshift_update_experie.Mco.{Node, MachineConfigPool, MachineConfig}
use openshift_update_experie.NodeState.Caches.{
  SelectorApi, ingest_selector, forget_selector, ingest_version, forget_version,
}
use openshift_update_experie.NodeState.Channel.{close}
use openshift_update_experie.NodeState.Controller.State.{Controller}

-- `requestsForAllNodes`, given what `List` answers: `none` is an error.
abbrev pub requests_for_all_nodes : Option (List Node) → List String
requests_for_all_nodes none = []
requests_for_all_nodes (some nodes) = map (λ node. node.name) nodes

module _ (api : SelectorApi) where
  unfoldable pub handle_machine_config_pool :
      Controller api → MachineConfigPool → Option (List Node) → Controller api × List String
  handle_machine_config_pool c pool nodes =
      let (cache, modified) = ingest_selector api c.mcp_selectors pool.name pool.node_selector in
      (record c { mcp_selectors = cache }, if modified then requests_for_all_nodes nodes else [])

  unfoldable pub handle_deleted_machine_config_pool :
      Controller api → MachineConfigPool → Option (List Node) → Controller api × List String
  handle_deleted_machine_config_pool c pool nodes =
      let (cache, loaded) = forget_selector api c.mcp_selectors pool.name in
      (record c { mcp_selectors = cache }, if loaded then requests_for_all_nodes nodes else [])

  unfoldable pub handle_machine_config :
      Controller api → MachineConfig → Option (List Node) → Controller api × List String
  handle_machine_config c mc nodes =
      let (cache, modified) = ingest_version c.machine_config_versions mc in
      (
        record c { machine_config_versions = cache },
        if modified then requests_for_all_nodes nodes else [],
      )

  unfoldable pub handle_deleted_machine_config :
      Controller api → MachineConfig → Option (List Node) → Controller api × List String
  handle_deleted_machine_config c mc nodes =
      let (cache, loaded) = forget_version c.machine_config_versions mc.name in
      (
        record c { machine_config_versions = cache },
        if loaded then requests_for_all_nodes nodes else [],
      )

  unfoldable pub handle_cluster_version :
      Controller api → Option (List Node) → Controller api × List String
  handle_cluster_version c nodes = (c, requests_for_all_nodes nodes)

  -- The two loops of `InitializeCaches`.
  unfoldable pub ingest_pools : Controller api → List MachineConfigPool → Controller api
  ingest_pools c [] = c
  ingest_pools c (pool ∷ pools) =
      ingest_pools
        (record c {
          mcp_selectors = (ingest_selector api c.mcp_selectors pool.name pool.node_selector).0;
        })
        pools

  unfoldable pub ingest_configs : Controller api → List MachineConfig → Controller api
  ingest_configs c [] = c
  ingest_configs c (mc ∷ mcs) =
      ingest_configs
        (record c { machine_config_versions = (ingest_version c.machine_config_versions mc).0 }) mcs

  -- Beside the controller, whether both lists could be read.
  unfoldable pub initialize_caches :
      Controller api
      → Option (List MachineConfigPool)
      → Option (List MachineConfig)
      → Controller api × Bool
  initialize_caches c none mcs = (c, false)
  initialize_caches c (some pools) none = (ingest_pools c pools, false)
  initialize_caches c (some pools) (some mcs) = (ingest_configs (ingest_pools c pools) mcs, true)

  -- `Start`, once the context is done.
  unfoldable pub shut_down : Controller api → Controller api
  shut_down c = record c {
    node_insight_events = close c.node_insight_events;
    mcp_insight_events = close c.mcp_insight_events;
  }
