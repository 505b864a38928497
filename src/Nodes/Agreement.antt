-- ===== src/Nodes/Agreement.antt =====
-- internal/controller/nodes/impl.go against the central controller: the same evaluation, the same
-- caches, the same requests.
use openshift_update_experie.Prelude.{
  String, ◌≡◌, refl, ap, ◌∙◌, sym, false, List, [], ◌∷◌, map, Option, none, some,
}
use openshift_update_experie.Meta.{Time, Condition, ConditionsApi}
use openshift_update_experie.Mco.{Node, MachineConfigPool, MachineConfig}
use openshift_update_experie.NodeState.{
  SelectorApi, SelectorCache, VersionCache, ingest_selector, ingest_version, evaluate,
  evaluate_node, convert_state_to_insight, insight_of_state, evaluate_is_updated,
  evaluate_is_updating,
}
use openshift_update_experie.NodeState.Controller.{
  Controller, handle_machine_config_pool, handle_deleted_machine_config_pool, handle_machine_config,
  handle_deleted_machine_config, requests_for_all_nodes, initialize_caches, ingest_pools,
  ingest_configs,
}
use openshift_update_experie.Nodes.Assessment.{assess_node, assess_existing}
use openshift_update_experie.Nodes.Reconcile.{
  Reconciler, NodeReads, ingest_all_pools, ingest_all_versions, warm_up,
}
use openshift_update_experie.Nodes.Handlers.{
  requests_from, all_nodes, handle_pool, handle_deleted_pool, handle_config, handle_deleted_config,
}

module _ (conditions : ConditionsApi) (group : String) (wall : Time) where
  pub assess_existing_lem :
      (node : Node) (mcp : MachineConfigPool) (version_of : String → Option String)
      (most_recent : String) (existing : List Condition) (now : Time)
      → assess_existing conditions group wall node mcp version_of most_recent existing now
        ≡ insight_of_state
            (evaluate conditions group wall node mcp version_of most_recent existing now)
  unfolding assess_existing evaluate insight_of_state evaluate_is_updated evaluate_is_updating
  assess_existing_lem node mcp version_of most_recent existing now = refl

  -- The node controller's own assessment of a node is the insight that the central evaluation of
  -- the node converts to, be the node or the pool nil or not.
  pub assess_node_agrees :
      (node : Option Node) (mcp : Option MachineConfigPool) (version_of : String → Option String)
      (most_recent : String) (existing : List Condition) (now : Time)
      → assess_node conditions group wall node mcp version_of most_recent existing now
        ≡ convert_state_to_insight
            (evaluate_node conditions group wall node mcp version_of most_recent existing now)
  unfolding assess_node evaluate_node convert_state_to_insight
  assess_node_agrees none mcp version_of most_recent existing now = refl
  assess_node_agrees (some node) none version_of most_recent existing now = refl
  assess_node_agrees (some node) (some mcp) version_of most_recent existing now =
      ap some (assess_existing_lem node mcp version_of most_recent existing now)

requests_from-map : (nodes : List Node) → requests_from nodes ≡ map (λ node. node.name) nodes
unfolding requests_from
requests_from-map [] = refl
requests_from-map (node ∷ nodes) = ap (λ xs. node.name ∷ xs) (requests_from-map nodes)

all_nodes-requests : (nodes : Option (List Node)) → all_nodes nodes ≡ requests_for_all_nodes nodes
unfolding all_nodes
all_nodes-requests none = refl
all_nodes-requests (some nodes) = requests_from-map nodes

module _ (api : SelectorApi) where
  -- The two controllers hold the same caches.
  abbrev pub Mirrors : Reconciler api → Controller api → Type 0
  Mirrors r c =
      (r.mcp_selectors ≡ c.mcp_selectors) × (r.machine_config_versions ≡ c.machine_config_versions)

  -- They hold the same caches and ask for the same nodes.
  abbrev pub Alike : Reconciler api × List String → Controller api × List String → Type 0
  Alike (r, xs) (c, ys) = Mirrors r c × (xs ≡ ys)

  module _ (r : Reconciler api) (c : Controller api) (nodes : Option (List Node))
      (h : Mirrors r c) where
    -- While the caches are the same, each event changes them alike and asks for the same nodes: a
    -- pool or a config that is there, or that was deleted.
    pub handlers_agree :
        (pool : MachineConfigPool) (mc : MachineConfig)
        → Alike (handle_pool api r pool nodes) (handle_machine_config_pool api c pool nodes)
          × Alike
              (handle_deleted_pool api r pool nodes)
              (handle_deleted_machine_config_pool api c pool nodes)
          × Alike (handle_config api r mc nodes) (handle_machine_config api c mc nodes)
          × Alike
              (handle_deleted_config api r mc nodes)
              (handle_deleted_machine_config api c mc nodes)
    unfolding handle_pool handle_machine_config_pool handle_deleted_pool
        handle_deleted_machine_config_pool handle_config handle_machine_config handle_deleted_config
        handle_deleted_machine_config
    handlers_agree pool mc =
        rw (h.0, h.1, all_nodes-requests nodes)
          (((refl, refl), refl), ((refl, refl), refl), ((refl, refl), refl), ((refl, refl), refl))

  ingest_all_pools-ingest_pools :
      (pools : List MachineConfigPool) (r : SelectorCache api) (c : Controller api)
      → r ≡ c.mcp_selectors
      → (ingest_all_pools api r pools ≡ (ingest_pools api c pools).mcp_selectors)
        × ((ingest_pools api c pools).machine_config_versions ≡ c.machine_config_versions)
  unfolding ingest_all_pools ingest_pools
  ingest_all_pools-ingest_pools [] r c h = (h, refl)
  ingest_all_pools-ingest_pools (pool ∷ pools) r c h =
      ingest_all_pools-ingest_pools pools _
        (record c {
          mcp_selectors = (ingest_selector api c.mcp_selectors pool.name pool.node_selector).0;
        })
        (ap (λ s. (ingest_selector api s pool.name pool.node_selector).0) h)

  ingest_all_versions-ingest_configs :
      (mcs : List MachineConfig) (v : VersionCache) (c : Controller api)
      → v ≡ c.machine_config_versions
      → (ingest_all_versions v mcs ≡ (ingest_configs api c mcs).machine_config_versions)
        × ((ingest_configs api c mcs).mcp_selectors ≡ c.mcp_selectors)
  unfolding ingest_all_versions ingest_configs
  ingest_all_versions-ingest_configs [] v c h = (h, refl)
  ingest_all_versions-ingest_configs (mc ∷ mcs) v c h =
      ingest_all_versions-ingest_configs mcs _
        (record c { machine_config_versions = (ingest_version c.machine_config_versions mc).0 })
        (ap (λ w. (ingest_version w mc).0) h)

  -- The caches that the first reconciliation fills are those that the central controller has
  -- initialized from the same two lists, if both can be read.
  warm_up_agrees :
      (r : Reconciler api) (c : Controller api) (reads : NodeReads) (pools : List MachineConfigPool)
      (mcs : List MachineConfig)
      → Mirrors r c
      → r.warmed_up ≡ false
      → reads.list_pools ≡ some pools
      → reads.list_configs ≡ some mcs
      → Mirrors (warm_up api r reads) (initialize_caches api c (some pools) (some mcs)).0
  unfolding warm_up initialize_caches
  warm_up_agrees r c reads pools mcs h e f g =
      let p = ingest_all_pools-ingest_pools pools r.mcp_selectors c h.0 in
      let q =
        ingest_all_versions-ingest_configs mcs r.machine_config_versions (ingest_pools api c pools)
          (h.1 ∙ sym p.1) in
      rw (e, f, g) (p.0 ∙ sym q.1, q.0)
