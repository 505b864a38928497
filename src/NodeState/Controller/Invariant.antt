-- ===== src/NodeState/Controller/Invariant.antt =====
-- What holds of the central controller whatever it has been through
-- (internal/controller/nodestate/impl.go).
use openshift_update_experie.Prelude.{
  ℕ, ◌≤◌, String, ◌≡◌, refl, sym, ap, ◌∙◌, subst, false, List, [], ◌∷◌, Option, none, some, if-elim,
  length, length-append, arith, ◌==◌,
}
use openshift_update_experie.Mco.{MachineConfigPool, MachineConfig}
use openshift_update_experie.Client.{finished}
use openshift_update_experie.NodeState.States.{range}
use openshift_update_experie.NodeState.Filed.{Filed, set_state-Filed, delete_state-Filed}
use openshift_update_experie.NodeState.Caches.{SelectorApi, ingest_selector, ingest_version}
use openshift_update_experie.NodeState.Channel.{
  Channel, Select, Notified, notify, delivered, cancelled, dropped, send_panics,
  default_channel_buffer_size,
}
use openshift_update_experie.NodeState.Controller.Sends.{notify-delivered}
use openshift_update_experie.NodeState.Controller.State.{Controller, new_controller}
use openshift_update_experie.NodeState.Controller.Reconcile.{
  Reconciled, panicked, controller_after, store_evaluated,
}
use openshift_update_experie.NodeState.Controller.Handlers.{
  handle_machine_config_pool, handle_deleted_machine_config_pool, handle_machine_config,
  handle_deleted_machine_config, initialize_caches, ingest_pools, ingest_configs, shut_down,
}
use openshift_update_experie.NodeState.Controller.Broadcast.{
  visit, told, tell_pools, notify_all_downstream,
}
use openshift_update_experie.NodeState.Controller.Frame.{reconcile-elim}
use openshift_update_experie.NodeState.Controller.Channels.{IsLasting, Step-Both}
use openshift_update_experie.NodeState.Controller.System.{
  Step, reconciles, pool_event, pool_deletion, config_event, config_deletion, broadcast,
  takes_node_event, takes_pool_event, shuts_down, Reach, starts, later,
}

shorter :
    {n : ℕ} (q : List String) (name : String) (rest : List String)
    → q ≡ name ∷ rest
    → length q ≤ n
    → length rest ≤ n
shorter {n} q name rest e h = omega (arith, subst (λ l. length l ≤ n) e h)

abbrev pub Fits : Channel → Type 0
Fits ch = length ch.queue ≤ default_channel_buffer_size

Fits-IsLasting : IsLasting Fits
Fits-IsLasting = record {
  sends = λ s ch after name q n.
      let (e, _, room) = notify-delivered s ch after name n in
      subst Fits (sym e) (omega (arith, length-append ch.queue (name ∷ []), room));
  takes = λ ch name rest q e. shorter ch.queue name rest e q;
  closes = λ ch q. q;
}

module _ (api : SelectorApi) where
  told-store :
      (n : Notified) (next : Controller api → Reconciled api) (c : Controller api)
      → ((d : Controller api) → (controller_after (next d)).state_store ≡ d.state_store)
      → (controller_after (told api n next c)).state_store ≡ c.state_store
  told-store (delivered ch) next c h = h (record c { mcp_insight_events = ch })
  told-store cancelled next c h = refl
  told-store dropped next c h = h c
  told-store send_panics next c h = refl

  tell_pools-store :
      (pool_select : String → Select) (pools : List String) (c : Controller api)
      → (controller_after (tell_pools api pool_select pools c)).state_store ≡ c.state_store
  tell_pools-store pool_select [] c = refl
  tell_pools-store pool_select (pool ∷ pools) c =
      told-store (notify (pool_select pool) c.mcp_insight_events pool)
        (λ d. tell_pools api pool_select pools d) c (tell_pools-store pool_select pools)

  -- A broadcast leaves the store alone.
  broadcast-store :
      (node_select pool_select : String → Select) (order : List String → List String)
      (c : Controller api)
      → (controller_after (notify_all_downstream api node_select pool_select order c)).state_store
        ≡ c.state_store
  unfolding notify_all_downstream
  broadcast-store node_select pool_select order c =
      let w =
        range (visit node_select) c.state_store
          (record { events = c.node_insight_events; pools = []; has_panicked = false }) in
      let d : Controller api = record c { node_insight_events = w.events } in
      if-elim (λ x. (controller_after x).state_store ≡ c.state_store) w.has_panicked
        (panicked d finished) (tell_pools api pool_select (order w.pools) d) refl
        (tell_pools-store pool_select (order w.pools) d)

  Step-Filed : {c d : Controller api} → Step api c d → Filed c.state_store → Filed d.state_store
  unfolding handle_machine_config_pool handle_deleted_machine_config_pool handle_machine_config
      handle_deleted_machine_config shut_down store_evaluated
  Step-Filed {c} (reconciles conditions group wall now s t reads name a) f =
      reconcile-elim api (λ d. Filed d.state_store) conditions group wall now s t reads c name f
        (delete_state-Filed c.state_store name f)
        (λ node pool e p state g. (
          set_state-Filed c.state_store name _ (g.1 ∙ a.node_named node e)
              (ap (λ n. n == "") g.0 ∙ a.pool_named _ pool p) f,
          λ d ch h n. h,
          λ d ch h n. h,
        ))
  Step-Filed (pool_event pool nodes) f = f
  Step-Filed (pool_deletion pool nodes) f = f
  Step-Filed (config_event mc nodes) f = f
  Step-Filed (config_deletion mc nodes) f = f
  Step-Filed {c} (broadcast node_select pool_select order) f =
      subst Filed (sym (broadcast-store node_select pool_select order c)) f
  Step-Filed (takes_node_event name rest e) f = f
  Step-Filed (takes_pool_event name rest e) f = f
  Step-Filed (shuts_down h) f = f

  -- What the caches' initialization leaves alone.
  abbrev Bare : Controller api → Type 0
  Bare c =
      (c.state_store ≡ []) × (c.node_insight_events.queue ≡ []) × (c.mcp_insight_events.queue ≡ [])

  ingest_pools-Bare :
      (pools : List MachineConfigPool) (c : Controller api)
      → Bare c
      → Bare (ingest_pools api c pools)
  unfolding ingest_pools
  ingest_pools-Bare [] c h = h
  ingest_pools-Bare (pool ∷ pools) c h =
      ingest_pools-Bare pools
        (record c {
          mcp_selectors = (ingest_selector api c.mcp_selectors pool.name pool.node_selector).0;
        })
        h

  ingest_configs-Bare :
      (mcs : List MachineConfig) (c : Controller api) → Bare c → Bare (ingest_configs api c mcs)
  unfolding ingest_configs
  ingest_configs-Bare [] c h = h
  ingest_configs-Bare (mc ∷ mcs) c h =
      ingest_configs-Bare mcs
        (record c { machine_config_versions = (ingest_version c.machine_config_versions mc).0 }) h

  initialize_caches-Bare :
      (pools : Option (List MachineConfigPool)) (mcs : Option (List MachineConfig))
      → Bare (initialize_caches api (new_controller api) pools mcs).0
  unfolding initialize_caches
  initialize_caches-Bare none mcs = (refl, refl, refl)
  initialize_caches-Bare (some pools) none =
      ingest_pools-Bare pools (new_controller api) (refl, refl, refl)
  initialize_caches-Bare (some pools) (some mcs) =
      ingest_configs-Bare mcs (ingest_pools api (new_controller api) pools)
        (ingest_pools-Bare pools (new_controller api) (refl, refl, refl))

  abbrev pub IsSound : Controller api → Type 0
  IsSound c = Filed c.state_store × Fits c.node_insight_events × Fits c.mcp_insight_events

  -- Whatever the controller has been through, reconciliations, events, broadcasts and its end in any
  -- order, its store holds each node once, under the node's own name and in a pool that has a name,
  -- and neither channel holds more than its 1024 events.
  pub Reach-IsSound : {c : Controller api} → Reach api c → IsSound c
  Reach-IsSound (starts pools mcs) =
      let (s, n, m) = initialize_caches-Bare pools mcs in
      (
        subst Filed (sym s) tt,
        subst (λ q. length q ≤ default_channel_buffer_size) (sym n) (omega arith),
        subst (λ q. length q ≤ default_channel_buffer_size) (sym m) (omega arith),
      )
  Reach-IsSound (later r step) =
      let (f, n, m) = Reach-IsSound r in
      let fits = Step-Both api Fits Fits Fits-IsLasting Fits-IsLasting step (n, m) in
      (Step-Filed step f, fits.0, fits.1)
