-- ===== src/Mco/DesiredState.antt =====
-- `SetDesiredStateFromPool` of internal/mco/layered_node_state.go.
use openshift_update_experie.Prelude.{
  ◌≡◌, ◌∙◌, inl, inr, true, ◌&&◌, some, eq_refl, Bool-cases, lookup-insert, lookup-remove,
}
use openshift_update_experie.Mco.Constants.{
  desired_machine_config_annotation_key, desired_image_annotation_key,
}
use openshift_update_experie.Mco.Objects.{MachineConfigPool, get?, get}
use openshift_update_experie.Mco.PoolState.{is_layered, has_os_image}
use openshift_update_experie.Mco.NodeState.{
  is_desired_machine_config_equal_to_pool, LayeredNodeState, is_desired_image_equal_to_pool,
  set_desired_state_from_pool, is_desired_equal_to_pool,
}
use openshift_update_experie.Mco.Availability.{image_matches, image_equal_lem, and_then_lem}

module _ (l : LayeredNodeState) (mcp : MachineConfigPool) where
  written_config :
      get (set_desired_state_from_pool l mcp).node.annotations desired_machine_config_annotation_key
      ≡ mcp.configuration_name
  unfolding set_desired_state_from_pool get?
  written_config = elim (Bool-cases (is_layered (some mcp) && has_os_image mcp)) [
    | inl e ↦ rw e (simp lookup-insert)
    | inr e ↦ rw e (simp (lookup-insert, lookup-remove))
  ]

  written_image :
      image_matches (set_desired_state_from_pool l mcp).node desired_image_annotation_key mcp ≡ true
  unfolding set_desired_state_from_pool get?
  written_image = elim (Bool-cases (is_layered (some mcp) && has_os_image mcp)) [
    | inl e ↦ rw e (simp (lookup-insert, eq_refl))
    | inr e ↦ rw e (simp (lookup-remove, eq_refl))
  ]

  -- A node that the pool's desired state was written to has the pool's desired state.
  pub set_desired_state_from_pool-is_desired_equal_to_pool :
      (is_desired_equal_to_pool (set_desired_state_from_pool l mcp) mcp).1 ≡ true
  unfolding is_desired_equal_to_pool is_desired_image_equal_to_pool
      is_desired_machine_config_equal_to_pool
  set_desired_state_from_pool-is_desired_equal_to_pool =
      and_then_lem _ (λ l'. is_desired_image_equal_to_pool l' mcp)
      ∙ rw (image_equal_lem, written_image, written_config, eq_refl)
