-- ===== src/NodeState/Conditions.antt =====
-- internal/controller/nodestate/conditions.go.
use openshift_update_experie.Prelude.{
  String, Bool, true, false, not, ◌&&◌, ◌||◌, List, [], ◌∷◌, ◌++◌, if◌then◌else◌, ◌==◌,
  before_first, select,
}
use openshift_update_experie.Meta.{
  Time, is_zero, Condition, ConditionsApi, condition_true, condition_false, condition_unknown,
}
use openshift_update_experie.Mco.{
  Node, MachineConfigPool, LayeredNodeState, get?, get, get_unavailable_message,
  get_unavailable_since, desired_drainer_annotation_key, last_applied_drainer_annotation_key,
  drainer_state_drain, machine_config_daemon_state_annotation_key, machine_config_daemon_state_done,
  machine_config_daemon_state_rebooting, machine_config_daemon_reason_annotation_key,
}
use openshift_update_experie.Api.{
  updating_type, available_type, degraded_type, updating_reason, node_draining, node_updating,
  node_rebooting, node_paused, node_update_pending, node_completed, node_cannot_determine,
}
use openshift_update_experie.NodeState.State.{
  UpdatePhase, phase_pending, phase_draining, phase_updating, phase_rebooting, phase_paused,
  phase_completed,
}

unfoldable pub is_node_draining : Node → Bool → Bool
unfolding get?
is_node_draining node is_updating =
    let desired_drain = get node.annotations desired_drainer_annotation_key in
    let applied_drain = get node.annotations last_applied_drainer_annotation_key in
    let mcd_state = get node.annotations machine_config_daemon_state_annotation_key in
    if applied_drain == "" || desired_drain == ""
    then false
    else if not (desired_drain == applied_drain)
        && before_first b'-' desired_drain == drainer_state_drain
    then true
    else is_updating && mcd_state == machine_config_daemon_state_done

-- The types of the conditions that the controller manages.
abbrev pub is_managed : Condition → Bool
is_managed c = c.type == updating_type || (c.type == available_type || c.type == degraded_type)

abbrev pub initial_updating : Time → Condition
initial_updating now = record {
  type = updating_type;
  status = condition_unknown;
  reason = updating_reason node_cannot_determine;
  message = "Cannot determine whether the node is updating";
  last_transition_time = now;
}

-- The `if` ladder over the progress of the node: the phase and the Updating condition.
unfoldable pub determine_updating :
    MachineConfigPool → Node → Bool → Bool → Time → UpdatePhase × Condition
unfolding get?
determine_updating pool node is_updating is_updated now =
    let updating = initial_updating now in
    let state = get node.annotations machine_config_daemon_state_annotation_key in
    if is_updating && is_node_draining node is_updating
    then (
      phase_draining,
      record updating {
        status = condition_true;
        reason = updating_reason node_draining;
        message = "The node is draining";
      },
    )
    else if is_updating
    then (if state == machine_config_daemon_state_rebooting
        then (
          phase_rebooting,
          record updating {
            status = condition_true;
            reason = updating_reason node_rebooting;
            message = "The node is rebooting";
          },
        )
        else if state == machine_config_daemon_state_done
        then (
          phase_completed,
          record updating {
            status = condition_false;
            reason = updating_reason node_completed;
            message = "The node is updated";
          },
        )
        else (
          phase_updating,
          record updating {
            status = condition_true;
            reason = updating_reason node_updating;
            message = "The node is updating";
          },
        ))
    else if is_updated
    then (
      phase_completed,
      record updating {
        status = condition_false;
        reason = updating_reason node_completed;
        message = "The node is updated";
      },
    )
    else if pool.paused
    then (
      phase_paused,
      record updating {
        status = condition_false;
        reason = updating_reason node_paused;
        message = "The update of the node is paused";
      },
    )
    else (
      phase_pending,
      record updating {
        status = condition_false;
        reason = updating_reason node_update_pending;
        message = "The update of the node is pending";
      },
    )

-- Available while nothing speaks against it; otherwise with the message and the time that the
-- node's checks have recorded.
unfoldable pub determine_available : LayeredNodeState → Bool → Time → Condition
determine_available lns unavailable_now now =
    let available : Condition = record {
      type = available_type;
      status = condition_true;
      reason = "AsExpected";
      message = "The node is available";
      last_transition_time = now;
    } in
    let since = get_unavailable_since lns in
    if unavailable_now
    then record available {
      status = condition_false;
      reason = "Unavailable";
      message = get_unavailable_message lns;
      last_transition_time = if is_zero since then now else since;
    }
    else available

unfoldable pub determine_degraded : Node → Bool → Time → Condition
unfolding get?
determine_degraded node is_degraded now =
    let degraded : Condition = record {
      type = degraded_type;
      status = condition_false;
      reason = "AsExpected";
      message = "The node is not degraded";
      last_transition_time = now;
    } in
    if is_degraded
    then record degraded {
      status = condition_true;
      reason = "Degraded";
      message = get node.annotations machine_config_daemon_reason_annotation_key;
    }
    else degraded

-- The degraded message overwrites the unavailable one.
abbrev pub determine_message : Bool → Bool → Condition → Condition → String
determine_message unavailable_now is_degraded available degraded =
    if is_degraded then degraded.message else if unavailable_now then available.message else ""

module _ (api : ConditionsApi) where
  -- The condition list: Updating and Degraded through `meta.SetStatusCondition`; an Available
  -- condition that is false is put at the end by hand.
  unfoldable pub merge_conditions :
      Time → List Condition → Bool → Condition → Condition → Condition → List Condition
  merge_conditions wall existing unavailable_now updating available degraded =
      let conditions = select is_managed existing in
      let with_updating = api.set_status_condition wall conditions updating in
      let with_available =
        if unavailable_now
        then select (λ c. not (c.type == available_type)) with_updating ++ available ∷ []
        else api.set_status_condition wall with_updating available in
      api.set_status_condition wall with_available degraded

  unfoldable pub determine_conditions :
      Time
      → MachineConfigPool
      → Node
      → Bool
      → Bool
      → Bool
      → Bool
      → LayeredNodeState
      → List Condition
      → Time
      → List Condition × String × UpdatePhase
  determine_conditions wall pool node is_updating is_updated is_unavailable is_degraded lns existing
        now =
      let unavailable_now = is_unavailable && not is_updating in
      let (phase, updating) = determine_updating pool node is_updating is_updated now in
      let available = determine_available lns unavailable_now now in
      let degraded = determine_degraded node is_degraded now in
      (
        merge_conditions wall existing unavailable_now updating available degraded,
        determine_message unavailable_now is_degraded available degraded,
        phase,
      )
