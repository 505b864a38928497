-- ===== src/Versions/Reconcile.antt =====
-- `Reconcile` of internal/controller/clusterversions/impl.go.
use openshift_update_experie.Prelude.{
  String, Bool, true, List, [], ◌∷◌, ◌++◌, Option, none, some, if◌then◌else◌,
}
use openshift_update_experie.Meta.{Time, ConditionsApi}
use openshift_update_experie.Api.{ClusterVersionProgressInsightStatus, UpdateHealthInsightStatus}
use openshift_update_experie.Cluster.{
  ClusterVersion, ClusterOperator, GetResult, found, not_found, get_error,
}
use openshift_update_experie.Client.{
  WriteResult, written, conflict, already_exists, write_error, Answers, Call, create, delete,
  update_status, error_of,
}
use openshift_update_experie.Health.{
  ClusterInsights, SyncAnswers, our_insights_by_name, reconcile_health_insights,
  forced_health_insight, name_for_health_insight,
}
use openshift_update_experie.Versions.Difference.{has_significant_difference}
use openshift_update_experie.Versions.Float.{Float64}
use openshift_update_experie.Versions.Assessment.{assess_cluster_version}

abbrev Status : Type 0
Status = ClusterVersionProgressInsightStatus

-- What the libraries bring: the conditions, the name of the config API group, the digest of a text
-- and the order of the names of a set.
pub record Libraries : Type 0 where
  pub conditions : ConditionsApi
  pub group : String
  pub digest : String → String
  pub unsorted : List String → List String

-- What `List` answers.
pub data ListResult {ℓ} (A : Type ℓ) : Type ℓ where
  listed : List A → ListResult A
  list_error : String → ListResult A

pub record VersionReads : Type 0 where
  pub get_version : GetResult ClusterVersion
  pub get_insight : GetResult Status
  pub list_operators : ListResult ClusterOperator
  pub list_insights : ListResult (String × Option UpdateHealthInsightStatus)

-- What a reconciliation does: its calls for the progress insight, what the cluster's health insights
-- become if they are synchronized, and the outcome, with all errors that were met.
pub data Ending : Type 0 where
  done requeued : Ending
  with_errors : List String → Ending

pub record Effect : Type 0 where
  pub calls : List (Call Status)
  pub health : Option ClusterInsights
  pub ending : Ending

abbrev pub only : List (Call Status) → Ending → Effect
only calls ending = record { calls = calls; health = none; ending = ending }

abbrev pub ending_of : List String → Ending
ending_of [] = done
ending_of (e ∷ es) = with_errors (e ∷ es)

-- A new insight has an empty status, which differs in its name and assessment from any other.
abbrev pub is_significant : Option Status → Status → Bool
is_significant none new = true
is_significant (some old) new = has_significant_difference old new

module _ (libraries : Libraries) (answers : Answers) (sync : SyncAnswers) where
  -- The health insights that are wanted: the forced one, if there is one.
  abbrev pub health_insights : ClusterVersion → Time → List UpdateHealthInsightStatus
  health_insights cv now = elim (forced_health_insight libraries.group cv now) [
    | none ↦ []
    | some insight ↦ insight ∷ []
  ]

  abbrev pub synchronize :
      List (Call Status)
      → ListResult (String × Option UpdateHealthInsightStatus)
      → List UpdateHealthInsightStatus
      → Effect
  synchronize calls (list_error e) wanted = only calls (with_errors (e ∷ []))
  synchronize calls (listed cluster) wanted =
      let (after, errors) =
        reconcile_health_insights libraries.unsorted sync cluster
          (our_insights_by_name (name_for_health_insight libraries.digest "cv") wanted []) in
      record { calls = calls; health = some after; ending = ending_of errors }

  -- After the update of the status: the health insights are left alone if it failed.
  abbrev pub after_update :
      WriteResult
      → List (Call Status)
      → ListResult (String × Option UpdateHealthInsightStatus)
      → List UpdateHealthInsightStatus
      → Effect
  after_update written calls cluster wanted = synchronize calls cluster wanted
  after_update conflict calls cluster wanted = only calls requeued
  after_update already_exists calls cluster wanted =
      only calls (with_errors (error_of already_exists ∷ []))
  after_update (write_error e) calls cluster wanted = only calls (with_errors (e ∷ []))

  abbrev pub write_version :
      List (Call Status)
      → Option Status
      → Status
      → ListResult (String × Option UpdateHealthInsightStatus)
      → List UpdateHealthInsightStatus
      → Effect
  write_version calls old status cluster wanted =
      if is_significant old status
      then after_update answers.on_update (calls ++ update_status status ∷ []) cluster wanted
      else synchronize calls cluster wanted

  abbrev pub create_version :
      WriteResult
      → Status
      → ListResult (String × Option UpdateHealthInsightStatus)
      → List UpdateHealthInsightStatus
      → Effect
  create_version written status cluster wanted =
      write_version (create ∷ []) none status cluster wanted
  create_version already_exists status cluster wanted = only (create ∷ []) requeued
  create_version conflict status cluster wanted =
      only (create ∷ []) (with_errors (error_of conflict ∷ []))
  create_version (write_error e) status cluster wanted = only (create ∷ []) (with_errors (e ∷ []))

  abbrev pub delete_version : WriteResult → Effect
  delete_version written = only (delete ∷ []) done
  delete_version conflict = only (delete ∷ []) (with_errors (error_of conflict ∷ []))
  delete_version already_exists = only (delete ∷ []) (with_errors (error_of already_exists ∷ []))
  delete_version (write_error e) = only (delete ∷ []) (with_errors (e ∷ []))

  module _ {F : Type 0} (float : Float64 F) (wall now forced_now : Time) where
    -- With all reads successful; `none` is the panic of the assessment.
    abbrev pub reconcile_read :
        ListResult (String × Option UpdateHealthInsightStatus)
        → List ClusterOperator
        → Option ClusterVersion
        → Option Status
        → Option Effect
    reconcile_read cluster operators none none = some (only [] done)
    reconcile_read cluster operators none (some old) = some (delete_version answers.on_delete)
    reconcile_read cluster operators (some cv) none =
        elim (assess_cluster_version float libraries.conditions wall now cv none operators) [
          | none ↦ none
          | some status ↦
              some (create_version answers.on_create status cluster (health_insights cv forced_now))
        ]
    reconcile_read cluster operators (some cv) (some old) =
        elim (assess_cluster_version float libraries.conditions wall now cv (some old) operators) [
          | none ↦ none
          | some status ↦
              some (write_version [] (some old) status cluster (health_insights cv forced_now))
        ]

    abbrev pub read_operators : VersionReads → Option ClusterVersion → Option Status → Option Effect
    read_operators reads cv old = elim reads.list_operators [
      | list_error e ↦ some (only [] (with_errors (e ∷ [])))
      | listed operators ↦ reconcile_read reads.list_insights operators cv old
    ]

    abbrev pub read_insight :
        VersionReads → Option ClusterVersion → GetResult Status → Option Effect
    read_insight reads cv (get_error e) = some (only [] (with_errors (e ∷ [])))
    read_insight reads cv not_found = read_operators reads cv none
    read_insight reads cv (found old) = read_operators reads cv (some old)

    abbrev pub read_cluster_version : VersionReads → GetResult ClusterVersion → Option Effect
    read_cluster_version reads (get_error e) = some (only [] (with_errors (e ∷ [])))
    read_cluster_version reads not_found = read_insight reads none reads.get_insight
    read_cluster_version reads (found cv) = read_insight reads (some cv) reads.get_insight

    unfoldable pub reconcile_version : VersionReads → Option Effect
    reconcile_version reads = read_cluster_version reads reads.get_version
