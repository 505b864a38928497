-- ===== src/Nodes/Assessment.antt =====
-- `assessNode` of internal/controller/nodes/impl.go.
use openshift_update_experie.Prelude.{
  String, Bool, not, ◌&&◌, ◌||◌, List, Option, none, some, if◌then◌else◌, ◌==◌,
}
use openshift_update_experie.Meta.{Time, Condition, ConditionsApi}
use openshift_update_experie.Mco.{
  Node, MachineConfigPool, new_layered_node_state, is_unavailable, get?, get, or_empty, is_some,
  desired_machine_config_annotation_key, current_machine_config_annotation_key,
  machine_config_pool_master,
}
use openshift_update_experie.Api.{NodeProgressInsightStatus, control_plane_scope, worker_pool_scope}
use openshift_update_experie.NodeState.{determine_conditions, is_node_degraded, estimate_from_phase}

module _ (api : ConditionsApi) (group : String) where
  -- With both objects there; a version that is not in the cache is `none`.
  unfoldable pub assess_existing :
      Time
      → Node
      → MachineConfigPool
      → (String → Option String)
      → String
      → List Condition
      → Time
      → NodeProgressInsightStatus
  unfolding get?
  assess_existing wall node mcp version_of most_recent existing now =
      let desired_config? = get? node.annotations desired_machine_config_annotation_key in
      let desired_config = or_empty desired_config? in
      let current_config = get node.annotations current_machine_config_annotation_key in
      let current_version = version_of current_config in
      let desired_version = version_of desired_config in
      let (lns, unavailable) = is_unavailable (new_layered_node_state node) mcp in
      let degraded = is_node_degraded node in
      let is_updated : Bool =
        is_some current_version
        && (most_recent == or_empty current_version
            && (not (is_some desired_config?) || current_config == desired_config)) in
      let is_updating : Bool =
        not is_updated
        && (is_some current_version
            && (is_some desired_version && most_recent == or_empty desired_version)) in
      let (conditions, message, phase) =
        determine_conditions api wall mcp node is_updating is_updated unavailable degraded lns
          existing now in
      record {
        name = node.name;
        pool_resource = record {
          group = group;
          resource = "machineconfigpools";
          name = mcp.name;
          namespace = "";
        };
        scope =
            if mcp.name == machine_config_pool_master
            then control_plane_scope
            else worker_pool_scope;
        version = or_empty current_version;
        estimated_to_complete = estimate_from_phase phase conditions;
        message = message;
        conditions = conditions;
      }

  -- The node or the pool may be nil.
  unfoldable pub assess_node :
      Time
      → Option Node
      → Option MachineConfigPool
      → (String → Option String)
      → String
      → List Condition
      → Time
      → Option NodeProgressInsightStatus
  unfolding assess_existing
  assess_node wall (some node) (some mcp) version_of most_recent existing now =
      some (assess_existing wall node mcp version_of most_recent existing now)
  assess_node wall _ _ version_of most_recent existing now = none
