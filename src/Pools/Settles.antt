-- ===== src/Pools/Settles.antt =====
-- The reconciliation of a pool's insight comes to rest
-- (internal/controller/machineconfigpools/impl.go).
use openshift_update_experie.Prelude.{◌≡◌, refl, Bool, true, [], Option, some}
use openshift_update_experie.Meta.{Time, ConditionsApi}
use openshift_update_experie.Mco.{MachineConfigPool}
use openshift_update_experie.Api.{MachineConfigPoolProgressInsightStatus}
use openshift_update_experie.Cluster.{found}
use openshift_update_experie.Client.{Answers, finished}
use openshift_update_experie.NodeState.{Store, get_by_pool, scope_of_pool}
use openshift_update_experie.Pools.Assessment.{assess_pool_from_node_states}
use openshift_update_experie.Pools.Reconcile.{reconcile_pool, write_status}
use openshift_update_experie.Pools.Stability.{assess_pool_again}

-- Once the insight of a pool holds what was assessed, from whatever it held before, reconciling
-- again, however much later, makes no call while the pool and the states of its nodes are as before.
pub reconcile_pool_settles :
    (api : ConditionsApi)
    (same : Option MachineConfigPoolProgressInsightStatus
      → MachineConfigPoolProgressInsightStatus
      → Bool)
    (wall later now again : Time) (pool : MachineConfigPool) (store : Store) (answers : Answers)
    (previous : Option MachineConfigPoolProgressInsightStatus)
    → ((s : MachineConfigPoolProgressInsightStatus) → same (some s) s ≡ true)
    → reconcile_pool api same later again
        (found pool)
        (found (
          assess_pool_from_node_states api wall pool.name
            (scope_of_pool pool.name)
            pool.paused
            (get_by_pool store pool.name)
            previous
            now))
        store
        answers
      ≡ ([], finished)
unfolding reconcile_pool write_status
reconcile_pool_settles api same wall later now again pool store answers previous h =
    let nodes = get_by_pool store pool.name in
    let scope = scope_of_pool pool.name in
    rw
      (
        assess_pool_again api wall later now again pool.name scope pool.paused nodes previous,
        h (assess_pool_from_node_states api wall pool.name scope pool.paused nodes previous now),
      )
      refl
