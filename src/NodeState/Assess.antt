-- ===== src/NodeState/Assess.antt =====
-- internal/controller/nodestate/assess.go.
use openshift_update_experie.Prelude.{
  ℕ, ◌*◌, String, Bool, not, ◌&&◌, ◌||◌, List, [], ◌∷◌, Option, none, some, if◌then◌else◌, ◌==◌,
}
use openshift_update_experie.Meta.{
  Time, Condition, ConditionsApi, condition_true, condition_false, status_eq,
}
use openshift_update_experie.Mco.{
  Node, MachineConfigPool, new_layered_node_state, is_unavailable, get?, get, or_empty, is_some,
  desired_machine_config_annotation_key, current_machine_config_annotation_key,
  machine_config_daemon_state_annotation_key, machine_config_daemon_state_degraded,
  machine_config_daemon_state_unreconcilable, machine_config_pool_master, minute,
}
use openshift_update_experie.Api.{
  ScopeType, control_plane_scope, worker_pool_scope, NodeProgressInsightStatus, degraded_type,
  available_type,
}
use openshift_update_experie.NodeState.State.{
  NodeState, UpdatePhase, phase_pending, phase_draining, phase_updating, phase_rebooting,
  phase_paused, phase_completed, compute_hash,
}
use openshift_update_experie.NodeState.Conditions.{determine_conditions}

-- A missing annotation, a nil map and an empty text are refused alike.
unfoldable pub is_node_degraded : Node → Bool
unfolding get?
is_node_degraded node =
    let dconfig = get node.annotations desired_machine_config_annotation_key in
    let dstate = get node.annotations machine_config_daemon_state_annotation_key in
    not (dconfig == "")
    && (not (dstate == "")
        && (dstate == machine_config_daemon_state_degraded
            || dstate == machine_config_daemon_state_unreconcilable))

-- The evaluation's two findings on the update, from the node's configs and their versions:
-- `isUpdated` and `isUpdating`.
unfoldable pub evaluate_is_updated : Node → (String → Option String) → String → Bool
unfolding get?
evaluate_is_updated node version_of desired_version =
    let desired_config? = get? node.annotations desired_machine_config_annotation_key in
    let current_config = get node.annotations current_machine_config_annotation_key in
    let current_version = version_of current_config in
    is_some current_version
    && (desired_version == or_empty current_version
        && (not (is_some desired_config?) || current_config == or_empty desired_config?))

unfoldable pub evaluate_is_updating : Node → (String → Option String) → String → Bool
unfolding get?
evaluate_is_updating node version_of desired_version =
    let desired_config = get node.annotations desired_machine_config_annotation_key in
    let current_config = get node.annotations current_machine_config_annotation_key in
    not (evaluate_is_updated node version_of desired_version)
    && (is_some (version_of current_config)
        && (is_some (version_of desired_config)
            && desired_version == or_empty (version_of desired_config)))

abbrev pub scope_of_pool : String → ScopeType
scope_of_pool name =
    if name == machine_config_pool_master then control_plane_scope else worker_pool_scope

-- `group` is the name of the machine-config API group, a constant of the vendored API.
module _ (api : ConditionsApi) (group : String) where
  unfoldable pub evaluate :
      Time
      → Node
      → MachineConfigPool
      → (String → Option String)
      → String
      → List Condition
      → Time
      → NodeState
  unfolding get?
  evaluate wall node pool version_of desired_version existing now =
      let current_config = get node.annotations current_machine_config_annotation_key in
      let (lns, unavailable) = is_unavailable (new_layered_node_state node) pool in
      let (conditions, message, phase) =
        determine_conditions api wall pool node
          (evaluate_is_updating node version_of desired_version)
          (evaluate_is_updated node version_of desired_version) unavailable (is_node_degraded node)
          lns existing now in
      let state : NodeState = record {
        name = node.name;
        uid = node.uid;
        pool_ref = record {
          group = group;
          resource = "machineconfigpools";
          name = pool.name;
          namespace = "";
        };
        scope = scope_of_pool pool.name;
        version = or_empty (version_of current_config);
        desired_version = desired_version;
        current_config = current_config;
        desired_config = get node.annotations desired_machine_config_annotation_key;
        conditions = conditions;
        phase = phase;
        message = message;
        last_evaluated = now;
        evaluation_count = 0;
        source_generation = 0;
        state_hash = 0;
      } in
      record state { state_hash = compute_hash state }

  -- `EvaluateNode`: the node or the pool may be nil.
  unfoldable pub evaluate_node :
      Time
      → Option Node
      → Option MachineConfigPool
      → (String → Option String)
      → String
      → List Condition
      → Time
      → Option NodeState
  unfolding evaluate
  evaluate_node wall (some node) (some pool) version_of desired_version existing now =
      some (evaluate wall node pool version_of desired_version existing now)
  evaluate_node wall _ _ version_of desired_version existing now = none

-- A condition after which no completion can be estimated.
abbrev pub blocks_estimate : Condition → Bool
blocks_estimate c =
    (c.type == degraded_type && status_eq c.status condition_true)
    || (c.type == available_type && status_eq c.status condition_false)

abbrev pub estimate_of_phase : UpdatePhase → Option ℕ
estimate_of_phase phase_completed = some 0
estimate_of_phase phase_pending = none
estimate_of_phase phase_paused = none
estimate_of_phase phase_draining = some (10 * minute)
estimate_of_phase phase_updating = some (10 * minute)
estimate_of_phase phase_rebooting = some (10 * minute)

-- The loop returns at the first condition that blocks an estimate; the `switch` comes after it.
unfoldable pub estimate_from_phase : UpdatePhase → List Condition → Option ℕ
estimate_from_phase phase [] = estimate_of_phase phase
estimate_from_phase phase (c ∷ cs) =
    if blocks_estimate c then none else estimate_from_phase phase cs

-- The status that `ConvertStateToInsight` builds for a state.
unfoldable pub insight_of_state : NodeState → NodeProgressInsightStatus
insight_of_state state = record {
  conditions = state.conditions;
  name = state.name;
  pool_resource = state.pool_ref;
  scope = state.scope;
  version = state.version;
  estimated_to_complete = estimate_from_phase state.phase state.conditions;
  message = state.message;
}

unfoldable pub convert_state_to_insight : Option NodeState → Option NodeProgressInsightStatus
convert_state_to_insight none = none
convert_state_to_insight (some state) = some (insight_of_state state)

unfoldable pub to_uid : Option NodeState → String
to_uid none = ""
to_uid (some state) = state.uid
