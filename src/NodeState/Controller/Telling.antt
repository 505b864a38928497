-- ===== src/NodeState/Controller/Telling.antt =====
-- Whom a broadcast of the central controller tells (internal/controller/nodestate/impl.go).
use openshift_update_experie.Prelude.{
  append_assoc, append_nil, ◌+◌, ◌≤◌, String, ◌≡◌, refl, sym, ap, ◌∙◌, true, false, List, [], ◌∷◌,
  ◌++◌, length, length-append, arith,
}
use openshift_update_experie.NodeState.State.{NodeState}
use openshift_update_experie.NodeState.States.{Store, range}
use openshift_update_experie.NodeState.Caches.{SelectorApi}
use openshift_update_experie.NodeState.Channel.{
  Select, Notified, notify, delivered, cancelled, dropped, send_panics, default_channel_buffer_size,
}
use openshift_update_experie.NodeState.Controller.Sends.{notify_open}
use openshift_update_experie.NodeState.Controller.State.{Controller}
use openshift_update_experie.NodeState.Controller.Reconcile.{Reconciled, controller_after}
use openshift_update_experie.NodeState.Controller.Broadcast.{
  Walk, add_pool, visit, visited, told, tell_pools, notify_all_downstream,
}

-- The names under which states are stored, in the order of the walk.
abbrev pub tracked : Store → List String
tracked [] = []
tracked ((name, state) ∷ s) = name ∷ tracked s

module _ (node_select : String → Select)
    (going : (name : String) → (node_select name).done ≡ false) where
  delivers :
      (w : Walk) (name : String) (state : NodeState)
      → w.events.closed ≡ false
      → length w.events.queue + 1 ≤ default_channel_buffer_size
      → visit node_select name state w ≡ (
        record w {
          events = record w.events { queue = w.events.queue ++ name ∷ [] };
          pools = add_pool state.pool_ref.name w.pools;
        },
        true,
      )
  delivers w name state o room =
      ap (visited state w)
        ((notify_open (node_select name) w.events name (going name) o).0 (omega (arith, room)))

  walk_tells :
      (s : Store) (w : Walk)
      → w.events.closed ≡ false
      → w.has_panicked ≡ false
      → length w.events.queue + length (tracked s) ≤ default_channel_buffer_size
      → ((range (visit node_select) s w).events.queue ≡ w.events.queue ++ tracked s)
        × ((range (visit node_select) s w).has_panicked ≡ false)
  unfolding range
  walk_tells [] w o p room = (sym (append_nil w.events.queue), p)
  walk_tells ((name, state) ∷ s) w o p room =
      let next : Walk = record w {
        events = record w.events { queue = w.events.queue ++ name ∷ [] };
        pools = add_pool state.pool_ref.name w.pools;
      } in
      let (q, r) =
        walk_tells s next o p (omega (arith, room, length-append w.events.queue (name ∷ []))) in
      rw (delivers w name state o (omega (arith, room)))
        (q ∙ append_assoc w.events.queue (name ∷ []) (tracked s), r)

module _ (api : SelectorApi) where
  told-nodes :
      (n : Notified) (next : Controller api → Reconciled api) (c : Controller api)
      → ((d : Controller api)
          → (controller_after (next d)).node_insight_events ≡ d.node_insight_events)
      → (controller_after (told api n next c)).node_insight_events ≡ c.node_insight_events
  told-nodes (delivered ch) next c h = h (record c { mcp_insight_events = ch })
  told-nodes cancelled next c h = refl
  told-nodes dropped next c h = h c
  told-nodes send_panics next c h = refl

  tell_pools-nodes :
      (pool_select : String → Select) (pools : List String) (c : Controller api)
      → (controller_after (tell_pools api pool_select pools c)).node_insight_events
        ≡ c.node_insight_events
  tell_pools-nodes pool_select [] c = refl
  tell_pools-nodes pool_select (pool ∷ pools) c =
      told-nodes (notify (pool_select pool) c.mcp_insight_events pool)
        (λ d. tell_pools api pool_select pools d) c (tell_pools-nodes pool_select pools)

  -- While the context is not done, the channel is open, and it has room for all of them, a broadcast
  -- tells every node that has a state, once, in the order of the walk, after what is queued already.
  pub notify_all_downstream_lem :
      (node_select pool_select : String → Select) (order : List String → List String)
      (c : Controller api)
      → ((name : String) → (node_select name).done ≡ false)
      → c.node_insight_events.closed ≡ false
      → length c.node_insight_events.queue + length (tracked c.state_store)
        ≤ default_channel_buffer_size
      → (controller_after
          (notify_all_downstream api node_select pool_select order c)).node_insight_events.queue
        ≡ c.node_insight_events.queue ++ tracked c.state_store
  unfolding notify_all_downstream
  notify_all_downstream_lem node_select pool_select order c going o room =
      let w : Walk = record { events = c.node_insight_events; pools = []; has_panicked = false } in
      let (q, p) = walk_tells node_select going c.state_store w o refl room in
      rw p (ap (λ ch. ch.queue) (tell_pools-nodes pool_select _ _) ∙ q)
