-- ===== src/Examples/Controller.antt =====
-- The central controller, its caches and its channels.
use openshift_update_experie.Client.{finished}
use openshift_update_experie.Examples.Data.{
  controller, draining_node, helpers, labelled_config, not_infra, pairs, reads, reads_gone,
  reads_worker, waiting,
}
use openshift_update_experie.Mco.{
  get?, machine_config_pool_worker, release_image_version_annotation_key,
}
use openshift_update_experie.NodeState.{get_state, version_for, which_mcp}
use openshift_update_experie.NodeState.Controller.{
  controller_after, forget_node, handle_machine_config, reconcile, reconciled,
  requests_for_all_nodes,
}
use openshift_update_experie.NodeState.Controller.Commit.{reconcile_forgets}
use openshift_update_experie.NodeState.Controller.Effects.{
  reconcile-other, reconcile_tells_one_pool,
}
use openshift_update_experie.NodeState.Controller.Requests.{handle_machine_config_lem, version_of}
use openshift_update_experie.NodeState.Selectors.{is_match, is_named, is_special, which_mcp_lem}
use openshift_update_experie.Prelude.{
  String, [], any, count, false, inl, none, refl, some, true, ◌==◌, ◌∷◌, ◌≡◌, ◌≢◌,
}

reconcile_forgets_example :
    (get_state
        (controller_after (
          reconcile pairs helpers "g" 100 90 waiting waiting reads_gone controller
            "worker-0")).state_store
        "worker-0"
      ≡ none)
    × ((reconcile pairs helpers "g" 100 90 waiting waiting reads_gone controller "worker-0")
        ≡ reconciled (forget_node pairs controller "worker-0") finished)
reconcile_forgets_example =
    reconcile_forgets pairs helpers "g" 100 90 waiting waiting reads_gone controller "worker-0"
      (inl refl)

reconcile-other_example :
    (get_state
        (controller_after (
          reconcile pairs helpers "g" 100 90 waiting waiting reads controller
            "worker-0")).state_store
        "worker-2"
      ≡ get_state controller.state_store "worker-2")
    × ((controller_after (
          reconcile pairs helpers "g" 100 90 waiting waiting reads controller
            "worker-0")).mcp_selectors
        ≡ controller.mcp_selectors)
    × ((controller_after (
          reconcile pairs helpers "g" 100 90 waiting waiting reads controller
            "worker-0")).machine_config_versions
        ≡ controller.machine_config_versions)
reconcile-other_example =
    reconcile-other pairs helpers "g" 100 90 waiting waiting reads controller "worker-0" "worker-2"
      refl

reconcile_tells_one_pool_example :
    count
      (λ q. q == "infra")
      (controller_after (
        reconcile pairs helpers "g" 100 90 waiting waiting reads_worker controller
          "worker-0")).mcp_insight_events.queue
    ≡ count (λ q. q == "infra") controller.mcp_insight_events.queue
reconcile_tells_one_pool_example =
    reconcile_tells_one_pool pairs helpers "g" 100 90 waiting waiting reads_worker controller
      "worker-0" "infra" (λ node pool found_node. not_infra pool)

which_mcp_lem_example :
    (any (is_match pairs (some (("role", "worker") ∷ []))) controller.mcp_selectors ≡ false
      → which_mcp pairs controller.mcp_selectors (some (("role", "worker") ∷ [])) ≡ "")
    × (any (is_match pairs (some (("role", "worker") ∷ []))) controller.mcp_selectors ≡ true
        → any (is_special pairs (some (("role", "worker") ∷ []))) controller.mcp_selectors ≡ false
        → which_mcp pairs controller.mcp_selectors (some (("role", "worker") ∷ []))
          ≡ machine_config_pool_worker)
    × (any (is_special pairs (some (("role", "worker") ∷ []))) controller.mcp_selectors ≡ true
        → (any
              (is_named pairs
                (some (("role", "worker") ∷ []))
                (which_mcp pairs controller.mcp_selectors (some (("role", "worker") ∷ []))))
              controller.mcp_selectors
            ≡ true)
          × (which_mcp pairs controller.mcp_selectors (some (("role", "worker") ∷ []))
              ≢ machine_config_pool_worker))
which_mcp_lem_example =
    which_mcp_lem pairs (some (("role", "worker") ∷ [])) controller.mcp_selectors

handle_machine_config_lem_example :
    let handled =
      handle_machine_config pairs controller labelled_config (some (draining_node ∷ [])) in
    let given =
      version_of (get? labelled_config.annotations release_image_version_annotation_key) in
    (given ≢ version_for controller.machine_config_versions labelled_config.name
      → handled.1 ≡ requests_for_all_nodes (some (draining_node ∷ [])))
    × (given ≡ version_for controller.machine_config_versions labelled_config.name
        → (handled.1 ≡ [])
          × ((other : String)
              → version_for handled.0.machine_config_versions other
                ≡ version_for controller.machine_config_versions other))
handle_machine_config_lem_example =
    handle_machine_config_lem pairs controller labelled_config (some (draining_node ∷ []))
