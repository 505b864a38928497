-- ===== src/Mco/NodeState.antt =====
-- internal/mco/layered_node_state.go. A method that appends to `unavailable` returns the new record.
use openshift_update_experie.Prelude.{
  ℕ, ◌*◌, ◌+◌, String, Bool, true, false, not, ◌&&◌, ◌||◌, List, [], ◌∷◌, ◌++◌, map, none, some,
  if◌then◌else◌, ◌==◌, ◌<>◌, join, ltb, insert, remove,
}
use openshift_update_experie.Meta.{Time, is_zero}
use openshift_update_experie.Mco.Constants.{
  desired_machine_config_annotation_key, desired_image_annotation_key, current_image_annotation_key,
  experimental_newest_layered_image_equivalent_config_annotation_key,
}
use openshift_update_experie.Mco.Objects.{Node, MachineConfigPool, StringMap, get?, get, is_some}
use openshift_update_experie.Mco.PoolState.{is_layered, has_os_image, get_os_image}

pub record BadCondition : Type 0 where
  pub reason : String
  pub message : String
  pub last_transition_time : Time

pub record LayeredNodeState : Type 0 where
  pub node : Node
  pub unavailable : List BadCondition

abbrev pub new_layered_node_state : Node → LayeredNodeState
new_layered_node_state n = record { node = n; unavailable = [] }

abbrev pub mcd_work_in_progress : String
mcd_work_in_progress = "Machine Config Daemon is processing the node"

abbrev pub node_unschedulable : String
node_unschedulable = "Node is marked unschedulable"

abbrev pub node_not_ready : String
node_not_ready = "Not ready"

abbrev pub node_disk_pressure : String
node_disk_pressure = "Disk pressure"

abbrev pub node_network_unavailable : String
node_network_unavailable = "Network unavailable"

-- A `badCondition` with a reason alone.
abbrev pub bad : String → BadCondition
bad r = record { reason = r; message = ""; last_transition_time = 0 }

-- The body of the loop of `GetUnavailableSince`.
abbrev pub earlier : Time → BadCondition → Time
earlier ret c =
    if is_zero c.last_transition_time
    then ret
    else if is_zero ret || ltb c.last_transition_time ret
    then c.last_transition_time
    else ret

unfoldable pub earliest : Time → List BadCondition → Time
earliest ret [] = ret
earliest ret (c ∷ cs) = earliest (earlier ret c) cs

unfoldable pub get_unavailable_since : LayeredNodeState → Time
unfolding earliest
get_unavailable_since l = earliest 0 l.unavailable

unfoldable pub get_unavailable_reason : LayeredNodeState → String
get_unavailable_reason l = join " | " (map (λ c. c.reason) l.unavailable)

abbrev pub minute : ℕ
minute = 60000000000

-- `now.Sub(t) < d`, the difference written without negative numbers.
abbrev pub elapsed_below : Time → Time → ℕ → Bool
elapsed_below now t d = ltb now (t + d)

-- A condition at which the loop of `SeriouslyUnavailable` does not `continue`.
unfoldable pub is_serious : Time → BadCondition → Bool
is_serious now c = not (
    (c.reason == node_unschedulable || c.reason == mcd_work_in_progress)
    || (c.reason == node_not_ready && elapsed_below now c.last_transition_time (minute * 5))
    || (c.reason == node_disk_pressure && elapsed_below now c.last_transition_time (minute * 1))
    || (c.reason == node_network_unavailable
        && elapsed_below now c.last_transition_time (minute * 1)))

unfoldable pub any_serious : Time → List BadCondition → Bool
unfolding is_serious
any_serious now [] = false
any_serious now (c ∷ cs) = is_serious now c || any_serious now cs

unfoldable pub seriously_unavailable : Time → LayeredNodeState → Bool
unfolding any_serious
seriously_unavailable now l = any_serious now l.unavailable

-- The three tests in turn: none of the replacements is itself one of the reasons tested later.
unfoldable pub message_of_reason : String → String
message_of_reason r =
    let m1 = if r == node_not_ready then "Node is not ready" else r in
    let m2 = if m1 == node_disk_pressure then "Node has disk pressure" else m1 in
    if m2 == node_network_unavailable then "Node has unavailable network" else m2

unfoldable pub get_unavailable_message : LayeredNodeState → String
unfolding message_of_reason
get_unavailable_message l = join " | " (map (λ c. message_of_reason c.reason) l.unavailable)

unfoldable pub is_image_annotation_equal_to_pool :
    LayeredNodeState → String → MachineConfigPool → LayeredNodeState × Bool
is_image_annotation_equal_to_pool l anno mcp =
    if is_layered (some mcp) && has_os_image mcp
    then (if get_os_image mcp == get l.node.annotations anno then (l, true) else (
      record l {
        unavailable =
            l.unavailable
            ++ bad (
                "Node has an unexpected annotation "
                <> experimental_newest_layered_image_equivalent_config_annotation_key
                <> "="
                <> get_os_image mcp)
              ∷ [];
      },
      false,
    ))
    else (l, get l.node.annotations anno == "" || not (is_some (get? l.node.annotations anno)))

unfoldable pub is_desired_image_equal_to_pool :
    LayeredNodeState → MachineConfigPool → LayeredNodeState × Bool
is_desired_image_equal_to_pool l mcp =
    is_image_annotation_equal_to_pool l desired_image_annotation_key mcp

unfoldable pub is_current_image_equal_to_pool :
    LayeredNodeState → MachineConfigPool → LayeredNodeState × Bool
is_current_image_equal_to_pool l mcp =
    is_image_annotation_equal_to_pool l current_image_annotation_key mcp

unfoldable pub is_desired_machine_config_equal_to_pool : LayeredNodeState → MachineConfigPool → Bool
unfolding get?
is_desired_machine_config_equal_to_pool l mcp =
    get l.node.annotations desired_machine_config_annotation_key == mcp.configuration_name

-- `f(l) && g(l)`, where the right side runs, and may append, only if the left holds.
abbrev pub and_then :
    LayeredNodeState × Bool → (LayeredNodeState → LayeredNodeState × Bool) → LayeredNodeState × Bool
and_then (l, true) g = g l
and_then (l, false) g = (l, false)

unfoldable pub is_desired_equal_to_pool :
    LayeredNodeState → MachineConfigPool → LayeredNodeState × Bool
is_desired_equal_to_pool l mcp =
    and_then (l, is_desired_machine_config_equal_to_pool l mcp)
      (λ l'. is_desired_image_equal_to_pool l' mcp)

abbrev pub present : StringMap → List (String × String)
present none = []
present (some m) = m

unfoldable pub set_desired_state_from_pool : LayeredNodeState → MachineConfigPool → LayeredNodeState
set_desired_state_from_pool l mcp =
    let annotations =
      insert desired_machine_config_annotation_key mcp.configuration_name
        (present l.node.annotations) in
    let annotations' =
      if is_layered (some mcp) && has_os_image mcp
      then insert desired_image_annotation_key (get_os_image mcp) annotations
      else remove desired_image_annotation_key annotations in
    record {
      node = record (l.node) { annotations = some annotations' };
      unavailable = l.unavailable;
    }
