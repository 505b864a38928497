-- ===== src/Operators/Reconcile.antt =====
-- `Reconcile` of internal/controller/clusteroperators/impl.go.
use openshift_update_experie.Prelude.{String, Bool, List, [], ◌∷◌, if◌then◌else◌}
use openshift_update_experie.Meta.{Time, ConditionsApi}
use openshift_update_experie.Api.{ClusterOperatorProgressInsightStatus}
use openshift_update_experie.Cluster.{
  ClusterOperator, ClusterVersion, GetResult, found, not_found, get_error,
}
use openshift_update_experie.Client.{
  WriteResult, written, conflict, already_exists, write_error, Answers, Call, create, delete,
  update_status, Outcome, finished, requeue_after, failed, second, error_of,
}
use openshift_update_experie.Operators.Assessment.{assess_cluster_operator}

abbrev Status : Type 0
Status = ClusterOperatorProgressInsightStatus

abbrev pub ended : WriteResult → Outcome
ended written = finished
ended conflict = failed (error_of conflict)
ended already_exists = failed (error_of already_exists)
ended (write_error e) = failed e

abbrev pub update_ended : WriteResult → Outcome
update_ended written = finished
update_ended conflict = requeue_after second
update_ended already_exists = failed (error_of already_exists)
update_ended (write_error e) = failed e

-- `same` is `cmp.Diff(...) == ""` of github.com/google/go-cmp.
module _ (api : ConditionsApi) (same : Status → Status → Bool) where
  -- The insight is created, and its status is written in a second call.
  abbrev created : WriteResult → Answers → Status → List (Call Status) × Outcome
  created written answers status =
      (create ∷ update_status status ∷ [], update_ended answers.on_update)
  created conflict answers status = (create ∷ [], failed (error_of conflict))
  created already_exists answers status = (create ∷ [], failed (error_of already_exists))
  created (write_error e) answers status = (create ∷ [], failed e)

  abbrev write_insight :
      Time → ClusterOperator → String → GetResult Status → Answers → List (Call Status) × Outcome
  write_insight wall operator target (get_error e) answers = ([], failed e)
  write_insight wall operator target not_found answers =
      created answers.on_create answers (assess_cluster_operator api wall operator target [])
  write_insight wall operator target (found old) answers =
      let status = assess_cluster_operator api wall operator target old.conditions in
      if same old status
      then ([], finished)
      else (update_status status ∷ [], update_ended answers.on_update)

  abbrev with_version :
      Time
      → ClusterOperator
      → GetResult Status
      → GetResult ClusterVersion
      → Answers
      → List (Call Status) × Outcome
  with_version wall operator insight (get_error e) answers = ([], failed e)
  with_version wall operator insight not_found answers = ([], finished)
  with_version wall operator insight (found cv) answers =
      write_insight wall operator cv.desired_version insight answers

  -- The reads of the operator and of its insight come first, then the read of the cluster version.
  unfoldable pub reconcile_operator :
      Time
      → GetResult ClusterOperator
      → GetResult Status
      → GetResult ClusterVersion
      → Answers
      → List (Call Status) × Outcome
  reconcile_operator wall (get_error e) insight version answers = ([], failed e)
  reconcile_operator wall not_found (get_error e) version answers = ([], failed e)
  reconcile_operator wall not_found not_found version answers = ([], finished)
  reconcile_operator wall not_found (found old) version answers =
      (delete ∷ [], ended answers.on_delete)
  reconcile_operator wall (found operator) (get_error e) version answers = ([], failed e)
  reconcile_operator wall (found operator) not_found version answers =
      with_version wall operator not_found version answers
  reconcile_operator wall (found operator) (found old) version answers =
      with_version wall operator (found old) version answers
