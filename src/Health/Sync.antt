-- ===== src/Health/Sync.antt =====
-- `reconcileHealthInsights` of internal/controller/clusterversions/impl.go: what its writes make of
-- the cluster.
use openshift_update_experie.Prelude.{
  String, not, List, [], ◌∷◌, ◌++◌, map, Option, none, some, select, lookup, insert, remove,
}
use openshift_update_experie.Mco.{is_some}
use openshift_update_experie.Api.{UpdateHealthInsightStatus}
use openshift_update_experie.Client.{
  WriteResult, written, conflict, already_exists, write_error, error_of,
}

-- The health insights of the manager as the cluster holds them, by name. An insight that was created
-- has no status yet: the status is a subresource, which `Create` does not write.
abbrev pub ClusterInsights : Type 0
ClusterInsights = List (String × Option UpdateHealthInsightStatus)

abbrev pub OurInsights : Type 0
OurInsights = List (String × UpdateHealthInsightStatus)

-- What the calls for an insight answer, by its name. An owner reference can be refused, with an error.
pub record SyncAnswers : Type 0 where
  pub set_controller_reference : String → Option String
  pub on_create : String → WriteResult
  pub on_update : String → WriteResult
  pub on_delete : String → WriteResult

-- `ourInsightsByName`: of two insights with one name, the later stays.
unfoldable pub our_insights_by_name :
    (UpdateHealthInsightStatus → String)
    → List UpdateHealthInsightStatus
    → OurInsights
    → OurInsights
our_insights_by_name name_for [] ours = ours
our_insights_by_name name_for (insight ∷ insights) ours =
    our_insights_by_name name_for insights (insert (name_for insight) insight ours)

abbrev pub names {ℓ} : {A : Type ℓ} → List (String × A) → List String
names entries = map (λ e. e.0) entries

-- `Difference` and `Intersection` of the sets of names.
abbrev pub to_create : ClusterInsights → OurInsights → List String
to_create cluster ours = select (λ n. not (is_some (lookup n cluster))) (names ours)

abbrev pub to_update : ClusterInsights → OurInsights → List String
to_update cluster ours = select (λ n. is_some (lookup n ours)) (names cluster)

abbrev pub to_delete : ClusterInsights → OurInsights → List String
to_delete cluster ours = select (λ n. not (is_some (lookup n ours))) (names cluster)

-- What becomes of the cluster and the errors by one write of each kind.
abbrev pub Progress : Type 0
Progress = ClusterInsights × List String

-- Once the answer to a write is known: `after` is the cluster if it was written.
abbrev pub record_write : WriteResult → ClusterInsights → ClusterInsights → List String → Progress
record_write written before after errors = (after, errors)
record_write conflict before after errors = (before, errors ++ error_of conflict ∷ [])
record_write already_exists before after errors = (before, errors ++ error_of already_exists ∷ [])
record_write (write_error e) before after errors = (before, errors ++ e ∷ [])

module _ (answers : SyncAnswers) (ours : OurInsights) where
  abbrev pub create_referenced : Option String → String → Progress → Progress
  create_referenced (some e) name (cluster, errors) = (cluster, errors ++ e ∷ [])
  create_referenced none name (cluster, errors) =
      record_write (answers.on_create name) cluster (insert name none cluster) errors

  abbrev pub create_one : String → Progress → Progress
  create_one name p = create_referenced (answers.set_controller_reference name) name p

  abbrev pub update_one : String → Progress → Progress
  update_one name (cluster, errors) =
      record_write (answers.on_update name) cluster (insert name (lookup name ours) cluster) errors

  abbrev pub delete_one : String → Progress → Progress
  delete_one name (cluster, errors) =
      record_write (answers.on_delete name) cluster (remove name cluster) errors

-- A loop over names, of which none is left out after an error.
unfoldable pub for_each : (String → Progress → Progress) → List String → Progress → Progress
for_each step [] p = p
for_each step (n ∷ ns) p = for_each step ns (step n p)

-- `unsorted` is `UnsortedList` of k8s.io/apimachinery/pkg/util/sets. The result is the cluster and the
-- errors that are aggregated: no error if there is none.
unfoldable pub reconcile_health_insights :
    (List String → List String) → SyncAnswers → ClusterInsights → OurInsights → Progress
unfolding for_each
reconcile_health_insights unsorted answers cluster ours =
    let created =
      for_each (create_one answers ours) (unsorted (to_create cluster ours)) (cluster, []) in
    let updated = for_each (update_one answers ours) (unsorted (to_update cluster ours)) created in
    for_each (delete_one answers ours) (unsorted (to_delete cluster ours)) updated
