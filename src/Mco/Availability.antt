-- ===== src/Mco/Availability.antt =====
-- What the availability checks of internal/mco/layered_node_state.go report.
use openshift_update_experie.Prelude.{
  ◌≤◌, ◌<◌, ◌<>◌, String, ◌≡◌, refl, ◌∙◌, Bool, true, false, not, ◌&&◌, ◌||◌, [], ◌∷◌, some,
  if◌then◌else◌, ◌==◌, eq_iff, arith, any, length, length-append,
}
use openshift_update_experie.Mco.Constants.{
  experimental_newest_layered_image_equivalent_config_annotation_key, desired_image_annotation_key,
}
use openshift_update_experie.Mco.Objects.{Node, MachineConfigPool, get?, get}
use openshift_update_experie.Mco.PoolState.{is_layered, has_os_image, get_os_image}
use openshift_update_experie.Mco.NodeState.{
  bad, and_then, mcd_work_in_progress, LayeredNodeState, new_layered_node_state,
  is_desired_image_equal_to_pool, is_image_annotation_equal_to_pool,
}
use openshift_update_experie.Mco.Readiness.{
  is_node_ready, is_node_unavailable, is_node_done, is_unavailable, is_node_mcd_state,
}
use openshift_update_experie.Mco.Ready.{
  is_bad, is_node_ready_lem, is_node_ready_reasons, is_node_ready_node,
}

-- The image annotation that the pool asks for, independently of the record of reasons.
abbrev pub image_matches : Node → String → MachineConfigPool → Bool
image_matches n anno mcp =
    if is_layered (some mcp) && has_os_image mcp
    then get_os_image mcp == get n.annotations anno
    else get n.annotations anno == ""

pub image_equal_lem :
    (l : LayeredNodeState) (anno : String) (mcp : MachineConfigPool)
    → (is_image_annotation_equal_to_pool l anno mcp).1 ≡ image_matches l.node anno mcp
unfolding is_image_annotation_equal_to_pool get?
image_equal_lem l anno mcp = ground (arith, eq_iff (get l.node.annotations anno) "")

image_equal_reasons :
    (l : LayeredNodeState) (anno : String) (mcp : MachineConfigPool)
    → length l.unavailable ≤ length (is_image_annotation_equal_to_pool l anno mcp).0.unavailable
unfolding is_image_annotation_equal_to_pool
image_equal_reasons l anno mcp = ground (
  arith,
  length-append l.unavailable (
      bad (
        "Node has an unexpected annotation "
        <> experimental_newest_layered_image_equivalent_config_annotation_key
        <> "="
        <> get_os_image mcp)
      ∷ []),
)

pub and_then_lem :
    (r : LayeredNodeState × Bool) (g : LayeredNodeState → LayeredNodeState × Bool)
    → (and_then r g).1 ≡ (r.1 && (g r.0).1)
and_then_lem (l, true) g = refl
and_then_lem (l, false) g = refl

-- What the MCD says: it has finished, or it has failed for good.
abbrev pub is_settled : Node → Bool
is_settled n =
    is_node_done n || (is_node_mcd_state n "Degraded" || is_node_mcd_state n "Unreconcilable")

is_node_unavailable_lem :
    (l : LayeredNodeState)
    → (is_node_unavailable l).1
      ≡ ((any is_bad l.node.conditions || l.node.unschedulable) || not (is_settled l.node))
unfolding is_node_unavailable
is_node_unavailable_lem l = ground (arith, is_node_ready_lem l)

is_node_unavailable_node : (l : LayeredNodeState) → (is_node_unavailable l).0.node ≡ l.node
unfolding is_node_unavailable
is_node_unavailable_node l = ground (arith, is_node_ready_node l)

is_node_unavailable_reasons :
    (l : LayeredNodeState)
    → (is_node_unavailable l).1 ≡ true
    → 0 < length (is_node_unavailable l).0.unavailable
unfolding is_node_unavailable
is_node_unavailable_reasons l h = ground (
  arith,
  is_node_ready_reasons l,
  length-append (is_node_ready l).0.unavailable (bad mcd_work_in_progress ∷ []),
)

-- A node counts as unavailable exactly if its desired image is the one that the pool asks for, and
-- either it is not ready (a bad condition, or unschedulable) or it is not settled. It is settled if
-- its daemon reports Degraded or Unreconcilable, or reports Done while the node's current config is
-- the desired one and so is its current image, unless it has neither image annotation.
pub is_unavailable_lem :
    (n : Node) (mcp : MachineConfigPool)
    → (is_unavailable (new_layered_node_state n) mcp).1 ≡ (
        ((any is_bad n.conditions || n.unschedulable) || not (is_settled n))
        && image_matches n desired_image_annotation_key mcp)
unfolding is_unavailable is_desired_image_equal_to_pool
is_unavailable_lem n mcp =
    let l = new_layered_node_state n in
    and_then_lem (is_node_unavailable l) (λ l'. is_desired_image_equal_to_pool l' mcp)
    ∙ rw (is_node_unavailable_lem l, image_equal_lem, is_node_unavailable_node l)

-- Whenever a node is reported unavailable, at least one reason has been recorded.
pub is_unavailable_has_reason :
    (n : Node) (mcp : MachineConfigPool)
    → (is_unavailable (new_layered_node_state n) mcp).1 ≡ true
    → 0 < length (is_unavailable (new_layered_node_state n) mcp).0.unavailable
unfolding is_unavailable is_desired_image_equal_to_pool
is_unavailable_has_reason n mcp h =
    let l = new_layered_node_state n in
    ground (
      arith,
      is_node_unavailable_reasons l,
      image_equal_reasons (is_node_unavailable l).0 desired_image_annotation_key mcp,
    )
