-- ===== src/NodeState/Controller/State.antt =====
-- The state of `CentralNodeStateController`. Its metrics are left out, and so is its client, whose
-- answers are arguments of the operations.
use openshift_update_experie.Prelude.{ℕ, ◌%◌, ◌^◌, String, List, [], Option, false}
use openshift_update_experie.Mco.{Node, MachineConfigPool}
use openshift_update_experie.Cluster.{ClusterVersion, GetResult}
use openshift_update_experie.NodeState.State.{NodeState}
use openshift_update_experie.NodeState.States.{Store, get_state, get_all, get_by_pool}
use openshift_update_experie.NodeState.Caches.{SelectorApi, SelectorCache, VersionCache}
use openshift_update_experie.NodeState.Channel.{Channel}

-- `totalEvaluations` is an int64, kept as its bit pattern.
pub record Controller (api : SelectorApi) : Type 0 where
  pub state_store : Store
  pub mcp_selectors : SelectorCache api
  pub machine_config_versions : VersionCache
  pub total_evaluations : ℕ
  pub node_insight_events : Channel
  pub mcp_insight_events : Channel

-- `NewCentralNodeStateController`.
abbrev pub new_controller : (api : SelectorApi) → Controller api
new_controller api = record {
  state_store = [];
  mcp_selectors = [];
  machine_config_versions = [];
  total_evaluations = 0;
  node_insight_events = record { queue = []; closed = false };
  mcp_insight_events = record { queue = []; closed = false };
}

abbrev pub int64 : ℕ → ℕ
int64 n = n % 2 ^ 64

-- What the reads of one reconciliation answer.
pub record Reads : Type 0 where
  pub get_node : GetResult Node
  pub get_pool : String → GetResult MachineConfigPool
  pub get_cluster_version : GetResult ClusterVersion

-- The accessors of `Provider`.
abbrev pub get_node_state : {api : SelectorApi} → Controller api → String → Option NodeState
get_node_state c name = get_state c.state_store name

abbrev pub get_all_node_states : {api : SelectorApi} → Controller api → List NodeState
get_all_node_states c = get_all c.state_store

abbrev pub get_node_states_by_pool : {api : SelectorApi} → Controller api → String → List NodeState
get_node_states_by_pool c pool = get_by_pool c.state_store pool
