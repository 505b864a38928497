-- ===== src/Mco/Readiness.antt =====
-- internal/mco/layered_node_state.go, second half: the functions taken over from the
-- machine-config-operator, and the methods `IsUnavailable` and `IsDoneAt` built on them.
use openshift_update_experie.Prelude.{
  String, Bool, true, false, not, ◌&&◌, ◌||◌, List, [], ◌∷◌, ◌++◌, Option, none, some,
  if◌then◌else◌, ◌==◌, ◌<>◌,
}
use openshift_update_experie.Meta.{condition_true, condition_false, status_eq, status_name}
use openshift_update_experie.Mco.Constants.{
  desired_machine_config_annotation_key, current_machine_config_annotation_key,
  desired_image_annotation_key, current_image_annotation_key,
  machine_config_daemon_state_annotation_key, machine_config_daemon_state_done,
  machine_config_daemon_state_degraded, machine_config_daemon_state_unreconcilable,
}
use openshift_update_experie.Mco.Objects.{
  Node, NodeCondition, MachineConfigPool, get?, get, is_some,
}
use openshift_update_experie.Mco.NodeState.{
  BadCondition, LayeredNodeState, bad, and_then, mcd_work_in_progress, node_unschedulable,
  node_not_ready, node_disk_pressure, node_network_unavailable, is_desired_image_equal_to_pool,
  is_current_image_equal_to_pool,
}

-- A missing annotation reads as the empty text, and both are refused.
unfoldable pub is_node_mcd_state : Node → String → Bool
unfolding get?
is_node_mcd_state node state =
    let dstate = get node.annotations machine_config_daemon_state_annotation_key in
    not (dstate == "") && dstate == state

unfoldable pub is_node_config_done : Node → Bool
unfolding get?
is_node_config_done node =
    let cconfig = get node.annotations current_machine_config_annotation_key in
    let dconfig = get node.annotations desired_machine_config_annotation_key in
    not (cconfig == "") && (not (dconfig == "") && cconfig == dconfig)

unfoldable pub is_node_image_done : Node → Bool
unfolding get?
is_node_image_done node =
    let desired = get node.annotations desired_image_annotation_key in
    let current = get node.annotations current_image_annotation_key in
    if not (is_some (get? node.annotations desired_image_annotation_key))
      && not (is_some (get? node.annotations current_image_annotation_key))
    then true
    else if desired == ""
    then false
    else if current == ""
    then false
    else desired == current

unfoldable pub is_node_done : Node → Bool
is_node_done node =
    is_some node.annotations
    && (is_node_config_done node
        && (is_node_image_done node && is_node_mcd_state node machine_config_daemon_state_done))

-- The first error is kept.
abbrev pub or_error : Option String → String → Option String
or_error none e = some e
or_error (some e') e = some e'

-- One of the three tests of the loop's body: append, and set the error if there is none yet.
abbrev pub report :
    Bool
    → BadCondition
    → String
    → List BadCondition × Option String
    → List BadCondition × Option String
report false b e s = s
report true b e (bs, ret) = (bs ++ b ∷ [], or_error ret e)

abbrev pub of_condition : NodeCondition → String → BadCondition
of_condition c r = record {
  reason = r;
  message = c.message;
  last_transition_time = c.last_transition_time;
}

-- The condition's test is the first column of the three.
abbrev pub is_not_ready : NodeCondition → Bool
is_not_ready c = c.type == "Ready" && not (status_eq c.status condition_true)

abbrev pub has_disk_pressure : NodeCondition → Bool
has_disk_pressure c = c.type == "DiskPressure" && not (status_eq c.status condition_false)

abbrev pub has_network_unavailable : NodeCondition → Bool
has_network_unavailable c =
    c.type == "NetworkUnavailable" && not (status_eq c.status condition_false)

-- The body of the loop of `checkNodeReady` for one condition.
unfoldable pub check_condition :
    String → NodeCondition → List BadCondition × Option String → List BadCondition × Option String
check_condition name c s =
    let s1 =
      report (is_not_ready c) (of_condition c node_not_ready)
        ("node " <> name <> " is reporting NotReady=" <> status_name c.status) s in
    let s2 =
      report (has_disk_pressure c) (of_condition c node_disk_pressure)
        ("node " <> name <> " is reporting OutOfDisk=" <> status_name c.status) s1 in
    report (has_network_unavailable c) (of_condition c node_network_unavailable)
      ("node " <> name <> " is reporting NetworkUnavailable=" <> status_name c.status) s2

unfoldable pub check_conditions :
    String
    → List NodeCondition
    → List BadCondition × Option String
    → List BadCondition × Option String
check_conditions name [] s = s
check_conditions name (c ∷ cs) s = check_conditions name cs (check_condition name c s)

-- `none` is the nil error.
unfoldable pub check_node_ready : LayeredNodeState → LayeredNodeState × Option String
check_node_ready l =
    let s = check_conditions l.node.name l.node.conditions (l.unavailable, none) in
    let (bs, ret) =
      report l.node.unschedulable (bad node_unschedulable)
        ("node " <> l.node.name <> " is reporting Unschedulable") s in
    (record l { unavailable = bs }, ret)

unfoldable pub is_node_ready : LayeredNodeState → LayeredNodeState × Bool
is_node_ready l = let (l', ret) = check_node_ready l in (l', not (is_some ret))

unfoldable pub is_node_unavailable : LayeredNodeState → LayeredNodeState × Bool
is_node_unavailable l =
    let (l', ready) = is_node_ready l in
    if not ready
    then (l', true)
    else if is_node_done l.node
    then (l', false)
    else if is_node_mcd_state l.node machine_config_daemon_state_degraded
        || is_node_mcd_state l.node machine_config_daemon_state_unreconcilable
    then (l', false)
    else (record l' { unavailable = l'.unavailable ++ bad mcd_work_in_progress ∷ [] }, true)

unfoldable pub is_node_done_at : LayeredNodeState → MachineConfigPool → Bool
unfolding get?
is_node_done_at l pool =
    is_node_done l.node
    && get l.node.annotations current_machine_config_annotation_key == pool.configuration_name

unfoldable pub is_done_at : LayeredNodeState → MachineConfigPool → LayeredNodeState × Bool
is_done_at l mcp =
    and_then (and_then (l, is_node_done_at l mcp) (λ l'. is_desired_image_equal_to_pool l' mcp))
      (λ l'. is_current_image_equal_to_pool l' mcp)

unfoldable pub is_unavailable : LayeredNodeState → MachineConfigPool → LayeredNodeState × Bool
is_unavailable l mcp =
    and_then (is_node_unavailable l) (λ l'. is_desired_image_equal_to_pool l' mcp)
