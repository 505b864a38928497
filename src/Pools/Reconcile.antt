-- ===== src/Pools/Reconcile.antt =====
-- internal/controller/machineconfigpools/impl.go.
use openshift_update_experie.Prelude.{Bool, List, [], ◌∷◌, Option, none, some, if◌then◌else◌}
use openshift_update_experie.Meta.{Time, ConditionsApi}
use openshift_update_experie.Mco.{MachineConfigPool}
use openshift_update_experie.Api.{MachineConfigPoolProgressInsightStatus}
use openshift_update_experie.Cluster.{GetResult, found, not_found, get_error}
use openshift_update_experie.Client.{
  WriteResult, written, conflict, already_exists, write_error, Answers, Call, create, delete,
  update_status, Outcome, finished, requeue_after, failed, second,
}
use openshift_update_experie.NodeState.{Store, get_by_pool, scope_of_pool}
use openshift_update_experie.Pools.Assessment.{assess_pool_from_node_states}

abbrev Status : Type 0
Status = MachineConfigPoolProgressInsightStatus

-- What is returned after a `Delete` and after a `Status().Update`.
abbrev deleted_outcome : WriteResult → Outcome
deleted_outcome written = finished
deleted_outcome conflict = failed "conflict"
deleted_outcome already_exists = failed "already exists"
deleted_outcome (write_error e) = failed e

abbrev updated_outcome : WriteResult → Outcome
updated_outcome written = finished
updated_outcome conflict = requeue_after second
updated_outcome already_exists = failed "already exists"
updated_outcome (write_error e) = failed e

-- `cmp.Diff(...) == ""` of github.com/google/go-cmp.
module _ (api : ConditionsApi) (same : Option Status → Status → Bool) where
  -- The last part: the status is written if it differs from the one that was read. A new insight has
  -- an empty one, `none`.
  unfoldable pub write_status : Answers → Option Status → Status → List (Call Status) × Outcome
  write_status answers old status =
      if same old status
      then ([], finished)
      else (update_status status ∷ [], updated_outcome answers.on_update)

  abbrev created : Answers → Status → List (Call Status) × Outcome
  created answers status = elim answers.on_create [
    | written ↦
        (create ∷ (write_status answers none status).0, (write_status answers none status).1)
    | conflict ↦ (create ∷ [], failed "conflict")
    | already_exists ↦ (create ∷ [], requeue_after second)
    | write_error e ↦ (create ∷ [], failed e)
  ]

  -- `Reconcile`, given what the two reads answer, the store of node states, and what the writes
  -- would answer.
  unfoldable pub reconcile_pool :
      Time
      → Time
      → GetResult MachineConfigPool
      → GetResult Status
      → Store
      → Answers
      → List (Call Status) × Outcome
  reconcile_pool wall now (get_error e) insight store answers = ([], failed e)
  reconcile_pool wall now not_found (get_error e) store answers = ([], failed e)
  reconcile_pool wall now not_found not_found store answers = ([], finished)
  reconcile_pool wall now not_found (found status) store answers =
      (delete ∷ [], deleted_outcome answers.on_delete)
  reconcile_pool wall now (found pool) (get_error e) store answers = ([], failed e)
  reconcile_pool wall now (found pool) not_found store answers = created answers (
      assess_pool_from_node_states api wall pool.name (scope_of_pool pool.name) pool.paused
        (get_by_pool store pool.name) none now)
  reconcile_pool wall now (found pool) (found status) store answers =
      write_status answers (some status) (
        assess_pool_from_node_states api wall pool.name (scope_of_pool pool.name) pool.paused
          (get_by_pool store pool.name) (some status) now)
