-- ===== src/Nodes/Handlers.antt =====
-- The event handlers of internal/controller/nodes/impl.go. An event whose object has another type
-- than expected is ignored, which the types here leave out; a nil list of requests is an empty one.
use openshift_update_experie.Prelude.{String, List, [], ◌∷◌, Option, none, some, if◌then◌else◌}
use openshift_update_experie.Mco.{Node, MachineConfigPool, MachineConfig}
use openshift_update_experie.NodeState.{
  SelectorApi, ingest_selector, forget_selector, ingest_version, forget_version,
}
use openshift_update_experie.Nodes.Reconcile.{Reconciler}

-- The loop of `requestsForAllNodes`.
unfoldable pub requests_from : List Node → List String
requests_from [] = []
requests_from (node ∷ nodes) = node.name ∷ requests_from nodes

-- `AllNodes`, given what `List` answers: `none` is an error, which only goes to the log.
unfoldable pub all_nodes : Option (List Node) → List String
unfolding requests_from
all_nodes none = []
all_nodes (some nodes) = requests_from nodes

module _ (api : SelectorApi) where
  unfoldable pub handle_pool :
      Reconciler api → MachineConfigPool → Option (List Node) → Reconciler api × List String
  handle_pool r pool nodes =
      let (cache, modified) = ingest_selector api r.mcp_selectors pool.name pool.node_selector in
      (record r { mcp_selectors = cache }, if modified then all_nodes nodes else [])

  unfoldable pub handle_deleted_pool :
      Reconciler api → MachineConfigPool → Option (List Node) → Reconciler api × List String
  handle_deleted_pool r pool nodes =
      let (cache, known) = forget_selector api r.mcp_selectors pool.name in
      (record r { mcp_selectors = cache }, if known then all_nodes nodes else [])

  unfoldable pub handle_config :
      Reconciler api → MachineConfig → Option (List Node) → Reconciler api × List String
  handle_config r mc nodes =
      let (cache, modified) = ingest_version r.machine_config_versions mc in
      (record r { machine_config_versions = cache }, if modified then all_nodes nodes else [])

  unfoldable pub handle_deleted_config :
      Reconciler api → MachineConfig → Option (List Node) → Reconciler api × List String
  handle_deleted_config r mc nodes =
      let (cache, known) = forget_version r.machine_config_versions mc.name in
      (record r { machine_config_versions = cache }, if known then all_nodes nodes else [])
