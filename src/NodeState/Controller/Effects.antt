-- ===== src/NodeState/Controller/Effects.antt =====
-- What a reconciliation may do to other nodes, to the channels and to the pools
-- (internal/controller/nodestate/impl.go).
use openshift_update_experie.Prelude.{
  String, ◌≡◌, refl, ap, ◌∙◌, false, List, [], ◌∷◌, ◌++◌, arith, ◌==◌, count,
}
use openshift_update_experie.Meta.{Time, ConditionsApi}
use openshift_update_experie.Mco.{Node, MachineConfigPool}
use openshift_update_experie.Cluster.{found}
use openshift_update_experie.NodeState.States.{get_state}
use openshift_update_experie.NodeState.Walks.{get_state-after, get_state-delete_state}
use openshift_update_experie.NodeState.Caches.{SelectorApi, which_mcp}
use openshift_update_experie.NodeState.Channel.{Channel, Select, notify, delivered}
use openshift_update_experie.NodeState.Controller.Sends.{notify-delivered}
use openshift_update_experie.NodeState.Controller.State.{Controller, Reads}
use openshift_update_experie.NodeState.Controller.Reconcile.{
  controller_after, store_evaluated, reconcile,
}
use openshift_update_experie.NodeState.Controller.Frame.{reconcile-elim}

count_append :
    (p : String) (xs : List String) (x : String)
    → (x == p) ≡ false
    → count (λ q. q == p) (xs ++ x ∷ []) ≡ count (λ q. q == p) xs
count_append p [] x h = rw h refl
count_append p (y ∷ xs) x h = ground (arith, count_append p xs x h)

other_count :
    (p : String) (s : Select) (before after : Channel) (name : String)
    → notify s before name ≡ delivered after
    → (name == p) ≡ false
    → count (λ q. q == p) after.queue ≡ count (λ q. q == p) before.queue
other_count p s before after name n h =
    ap (λ ch. count (λ q. q == p) ch.queue) (notify-delivered s before after name n).0
    ∙ count_append p before.queue name h

module _ (selectors : SelectorApi) (conditions : ConditionsApi) (group : String) (wall now : Time)
    (s t : Select) (reads : Reads) (c : Controller selectors) (name : String) where
  abbrev after : Controller selectors
  after = controller_after (reconcile selectors conditions group wall now s t reads c name)

  -- A reconciliation of a node changes neither cache and no other node's state.
  pub reconcile-other :
      (other : String)
      → (name == other) ≡ false
      → (get_state after.state_store other ≡ get_state c.state_store other)
        × (after.mcp_selectors ≡ c.mcp_selectors)
        × (after.machine_config_versions ≡ c.machine_config_versions)
  unfolding store_evaluated
  reconcile-other other h =
      reconcile-elim selectors
        (λ d.
          (get_state d.state_store other ≡ get_state c.state_store other)
          × (d.mcp_selectors ≡ c.mcp_selectors)
          × (d.machine_config_versions ≡ c.machine_config_versions))
        conditions group wall now s t reads c name (refl, refl, refl)
        (get_state-delete_state c.state_store name other ∙ rw h refl, refl, refl)
        (λ node pool e f state g. (
          ((get_state-after c.state_store name other _).0 ∙ rw h refl, refl, refl),
          λ d ch p n. p,
          λ d ch p n. p,
        ))

  -- Of the pools, only the one that the node is in now is ever told: the events for any other pool,
  -- the one that the node was in before among them, are as many as before.
  pub reconcile_tells_one_pool :
      (p : String)
      → ((node : Node) (pool : MachineConfigPool)
          → reads.get_node ≡ found node
          → reads.get_pool (which_mcp selectors c.mcp_selectors node.labels) ≡ found pool
          → (pool.name == p) ≡ false)
      → count (λ q. q == p) after.mcp_insight_events.queue
        ≡ count (λ q. q == p) c.mcp_insight_events.queue
  unfolding store_evaluated
  reconcile_tells_one_pool p h =
      reconcile-elim selectors
        (λ d.
          count (λ q. q == p) d.mcp_insight_events.queue
          ≡ count (λ q. q == p) c.mcp_insight_events.queue)
        conditions group wall now s t reads c name refl refl
        (λ node pool e f state g. (
          refl,
          λ d ch r n. r,
          λ d ch r n. other_count p t d.mcp_insight_events ch pool.name n (h node pool e f) ∙ r,
        ))
