-- ===== src/NodeState/Controller/Channels.antt =====
-- What the steps of the central controller keep of its two channels
-- (internal/controller/nodestate/impl.go).
use openshift_update_experie.Prelude.{String, ◌≡◌, refl, false, List, [], ◌∷◌, if-elim}
use openshift_update_experie.Meta.{Time, ConditionsApi}
use openshift_update_experie.Client.{finished}
use openshift_update_experie.NodeState.State.{NodeState}
use openshift_update_experie.NodeState.States.{Store, range}
use openshift_update_experie.NodeState.Caches.{SelectorApi}
use openshift_update_experie.NodeState.Channel.{
  Channel, Select, Notified, notify, delivered, cancelled, dropped, send_panics, close,
}
use openshift_update_experie.NodeState.Controller.State.{Controller, Reads}
use openshift_update_experie.NodeState.Controller.Reconcile.{
  Reconciled, panicked, controller_after, store_evaluated, reconcile,
}
use openshift_update_experie.NodeState.Controller.Handlers.{
  handle_machine_config_pool, handle_deleted_machine_config_pool, handle_machine_config,
  handle_deleted_machine_config, shut_down,
}
use openshift_update_experie.NodeState.Controller.Broadcast.{
  Walk, visit, visited, told, tell_pools, notify_all_downstream,
}
use openshift_update_experie.NodeState.Controller.Frame.{reconcile-elim}
use openshift_update_experie.NodeState.Controller.System.{
  Step, reconciles, pool_event, pool_deletion, config_event, config_deletion, broadcast,
  takes_node_event, takes_pool_event, shuts_down,
}

-- A property of a channel that every delivery keeps.
abbrev pub KeptBySends : (Channel → Type 0) → Type 0
KeptBySends Q =
    (s : Select) (ch after : Channel) (name : String)
    → Q ch
    → notify s ch name ≡ delivered after
    → Q after

-- A property that deliveries, events that are taken, and the closing keep.
pub record IsLasting (Q : Channel → Type 0) : Type 0 where
  pub sends : KeptBySends Q
  pub takes :
      (ch : Channel) (name : String) (rest : List String)
      → Q ch
      → ch.queue ≡ name ∷ rest
      → Q (record ch { queue = rest })
  pub closes : (ch : Channel) → Q ch → Q (close ch)

module _ (Q : Channel → Type 0) (keep : KeptBySends Q) (node_select : String → Select) where
  visited-keeps :
      (name : String) (state : NodeState) (w : Walk) (n : Notified)
      → notify (node_select name) w.events name ≡ n
      → Q w.events
      → Q (visited state w n).0.events
  visited-keeps name state w (delivered ch) e q = keep (node_select name) w.events ch name q e
  visited-keeps name state w cancelled e q = q
  visited-keeps name state w dropped e q = q
  visited-keeps name state w send_panics e q = q

  walk-keeps : (s : Store) (w : Walk) → Q w.events → Q (range (visit node_select) s w).events
  unfolding range
  walk-keeps [] w q = q
  walk-keeps ((name, state) ∷ s) w q =
      let kept = visited-keeps name state w (notify (node_select name) w.events name) refl q in
      if-elim (λ v. Q v.events) (visit node_select name state w).1
        (range (visit node_select) s (visit node_select name state w).0)
        (visit node_select name state w).0 (walk-keeps s (visit node_select name state w).0 kept)
        kept

module _ (api : SelectorApi) (Q R : Channel → Type 0) (lasts : IsLasting Q)
    (persists : IsLasting R) where
  -- One property of each channel.
  abbrev pub Both : Controller api → Type 0
  Both c = Q c.node_insight_events × R c.mcp_insight_events

  told-Both :
      (s : Select) (pool : String) (next : Controller api → Reconciled api) (c : Controller api)
      (n : Notified)
      → notify s c.mcp_insight_events pool ≡ n
      → ((d : Controller api) → Both d → Both (controller_after (next d)))
      → Both c
      → Both (controller_after (told api n next c))
  told-Both s pool next c (delivered ch) e k (q, r) =
      k (record c { mcp_insight_events = ch })
        (q, persists.sends s c.mcp_insight_events ch pool r e)
  told-Both s pool next c cancelled e k q = q
  told-Both s pool next c dropped e k q = k c q
  told-Both s pool next c send_panics e k q = q

  tell_pools-Both :
      (pool_select : String → Select) (pools : List String) (c : Controller api)
      → Both c
      → Both (controller_after (tell_pools api pool_select pools c))
  tell_pools-Both pool_select [] c q = q
  tell_pools-Both pool_select (pool ∷ pools) c q =
      told-Both (pool_select pool) pool (λ d. tell_pools api pool_select pools d) c
        (notify (pool_select pool) c.mcp_insight_events pool) refl
        (λ d. tell_pools-Both pool_select pools d) q

  broadcast-Both :
      (node_select pool_select : String → Select) (order : List String → List String)
      (c : Controller api)
      → Both c
      → Both (controller_after (notify_all_downstream api node_select pool_select order c))
  unfolding notify_all_downstream
  broadcast-Both node_select pool_select order c (q, r) =
      let w =
        range (visit node_select) c.state_store
          (record { events = c.node_insight_events; pools = []; has_panicked = false }) in
      let d : Controller api = record c { node_insight_events = w.events } in
      let kept : Both d = (walk-keeps Q lasts.sends node_select c.state_store _ q, r) in
      if-elim (λ x. Both (controller_after x)) w.has_panicked (panicked d finished)
        (tell_pools api pool_select (order w.pools) d) kept
        (tell_pools-Both pool_select (order w.pools) d kept)

  reconcile-Both :
      (conditions : ConditionsApi) (group : String) (wall now : Time) (s t : Select) (reads : Reads)
      (c : Controller api) (name : String)
      → Both c
      → Both (controller_after (reconcile api conditions group wall now s t reads c name))
  unfolding store_evaluated
  reconcile-Both conditions group wall now s t reads c name q =
      reconcile-elim api Both conditions group wall now s t reads c name q q
        (λ node pool e f state g. (
          q,
          λ d ch p n. (lasts.sends s d.node_insight_events ch node.name p.0 n, p.1),
          λ d ch p n. (p.0, persists.sends t d.mcp_insight_events ch pool.name p.1 n),
        ))

  -- Every step of the controller keeps both.
  pub Step-Both : {c d : Controller api} → Step api c d → Both c → Both d
  unfolding handle_machine_config_pool handle_deleted_machine_config_pool handle_machine_config
      handle_deleted_machine_config shut_down
  Step-Both {c} (reconciles conditions group wall now s t reads name a) q =
      reconcile-Both conditions group wall now s t reads c name q
  Step-Both (pool_event pool nodes) q = q
  Step-Both (pool_deletion pool nodes) q = q
  Step-Both (config_event mc nodes) q = q
  Step-Both (config_deletion mc nodes) q = q
  Step-Both {c} (broadcast node_select pool_select order) q =
      broadcast-Both node_select pool_select order c q
  Step-Both {c} (takes_node_event name rest e) q =
      (lasts.takes c.node_insight_events name rest q.0 e, q.1)
  Step-Both {c} (takes_pool_event name rest e) q =
      (q.0, persists.takes c.mcp_insight_events name rest q.1 e)
  Step-Both {c} (shuts_down h) q =
      (lasts.closes c.node_insight_events q.0, persists.closes c.mcp_insight_events q.1)
