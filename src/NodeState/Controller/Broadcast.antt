-- ===== src/NodeState/Controller/Broadcast.antt =====
-- `NotifyAllDownstream` of the central controller.
use openshift_update_experie.Prelude.{
  String, Bool, true, false, List, [], ◌∷◌, ◌++◌, if◌then◌else◌, ◌==◌, any,
}
use openshift_update_experie.Client.{finished, failed}
use openshift_update_experie.NodeState.State.{NodeState}
use openshift_update_experie.NodeState.States.{range}
use openshift_update_experie.NodeState.Caches.{SelectorApi}
use openshift_update_experie.NodeState.Channel.{
  Channel, Select, Notified, notify, delivered, cancelled, dropped, send_panics,
}
use openshift_update_experie.NodeState.Controller.State.{Controller}
use openshift_update_experie.NodeState.Controller.Reconcile.{Reconciled, reconciled, panicked}

-- The variables of the walk over the store: the channel of node events, the pools seen so far, and
-- whether a send has panicked, which ends the walk.
pub record Walk : Type 0 where
  pub events : Channel
  pub pools : List String
  pub has_panicked : Bool

-- `pools[name] = struct{}{}`, unless the name is empty.
abbrev pub add_pool : String → List String → List String
add_pool name pools =
    if name == "" then pools else if any (λ p. p == name) pools then pools else pools ++ name ∷ []

-- The callback, once it is known what became of the send.
abbrev pub visited : NodeState → Walk → Notified → Walk × Bool
visited state w (delivered ch) =
    (record w { events = ch; pools = add_pool state.pool_ref.name w.pools }, true)
visited state w cancelled = (w, false)
visited state w dropped = (record w { pools = add_pool state.pool_ref.name w.pools }, true)
visited state w send_panics = (record w { has_panicked = true }, false)

abbrev pub visit : (String → Select) → String → NodeState → Walk → Walk × Bool
visit select_of name state w = visited state w (notify (select_of name) w.events name)

module _ (api : SelectorApi) where
  -- After the send to a pool, with what the loop does next.
  abbrev pub told : Notified → (Controller api → Reconciled api) → Controller api → Reconciled api
  told (delivered ch) next c = next (record c { mcp_insight_events = ch })
  told cancelled next c = reconciled c (failed "context canceled")
  told dropped next c = next c
  told send_panics next c = panicked c finished

  -- The loop over the pools.
  abbrev pub tell_pools : (String → Select) → List String → Controller api → Reconciled api
  tell_pools select_of [] c = reconciled c finished
  tell_pools select_of (pool ∷ pools) c =
      told (notify (select_of pool) c.mcp_insight_events pool) (λ d. tell_pools select_of pools d) c

  -- What the `select` of each send finds is given by the name that it sends, and `order` is the order
  -- in which the map of the pools is walked.
  unfoldable pub notify_all_downstream :
      (String → Select)
      → (String → Select)
      → (List String → List String)
      → Controller api
      → Reconciled api
  unfolding range
  notify_all_downstream node_select pool_select order c =
      let w =
        range (visit node_select) c.state_store
          (record { events = c.node_insight_events; pools = []; has_panicked = false }) in
      let d : Controller api = record c { node_insight_events = w.events } in
      if w.has_panicked then panicked d finished else tell_pools pool_select (order w.pools) d
