-- ===== src/Examples/Versions.antt =====
-- The cluster version and the health insights.
use openshift_update_experie.Prelude.{
  ◌≤◌, ◌≡◌, ◌≢◌, refl, add_duration, sub_times, round_duration, [], ◌∷◌, none, some, lookup, insert,
  remove, arith, List,
}
use openshift_update_experie.Meta.{condition_true, condition_false}
use openshift_update_experie.Api.{
  ClusterVersionProgressInsightStatus, UpdateHealthInsightStatus, version_completed,
  control_plane_scope, info_level, none_impact,
}
use openshift_update_experie.Cluster.{ClusterVersion, ClusterOperator, completed_update, found}
use openshift_update_experie.Client.{written, conflict}
use openshift_update_experie.Operators.{
  operator_version_name, find_operator_status_condition, is_version_updated,
}
use openshift_update_experie.Health.{
  ClusterInsights, OurInsights, SyncAnswers, reconcile_health_insights,
}
use openshift_update_experie.Health.Synced.{fate, reconcile_health_insights_lem}
use openshift_update_experie.Health.Errors.{in_full, synced_twice}
use openshift_update_experie.Versions.{
  Libraries, VersionReads, listed, assess_cluster_version, version_insight_with, updating_of,
  reconcile_version, synchronize, health_insights, has_target_version, estimate_completion,
  baseline_duration, first_completed, observed_progress, operator_completion,
  is_control_plane_updating,
}
use openshift_update_experie.Versions.Completion.{assess_cluster_version_lem}
use openshift_update_experie.Versions.Settles.{reconcile_version_settles}
use openshift_update_experie.Versions.Agreement.{has_target_version-agrees}
use openshift_update_experie.Examples.Data.{
  helpers, cluster_version, progressing_operator, version_insight, answers,
}
use openshift_update_experie.Examples.FixedPoint.{fixed_point, fixed_point-IsOrdered}

abbrev health_status : UpdateHealthInsightStatus
health_status = record {
  started_at = 50;
  scope = record { type = control_plane_scope; resources = [] };
  impact = record { level = info_level; type = none_impact; summary = "s"; description = "" };
  remediation = record { reference = "r"; estimated_finish = none };
}

-- One insight is to be created, one updated, and one deleted.
abbrev held_insights : ClusterInsights
held_insights = ("cv-old", some health_status) ∷ ("cv-kept", none) ∷ []

abbrev our_insights : OurInsights
our_insights = ("cv-kept", health_status) ∷ ("cv-new", health_status) ∷ []

abbrev all_written : SyncAnswers
all_written = record {
  set_controller_reference = λ name. none;
  on_create = λ name. written;
  on_update = λ name. written;
  on_delete = λ name. written;
}

-- The deletion fails.
abbrev undeleted : SyncAnswers
undeleted = record all_written { on_delete = λ name. conflict }

reconcile_health_insights_lem_example :
    lookup "cv-new"
      (reconcile_health_insights (λ names. names) undeleted held_insights our_insights).0
    ≡ fate undeleted "cv-new" (lookup "cv-new" held_insights) (lookup "cv-new" our_insights)
reconcile_health_insights_lem_example =
    reconcile_health_insights_lem undeleted (λ names. names) held_insights our_insights
      (λ n names. refl) "cv-new"

synced_twice_example :
    let once = reconcile_health_insights (λ names. names) all_written held_insights our_insights in
    lookup "cv-new" (reconcile_health_insights (λ names. names) all_written once.0 our_insights).0
    ≡ in_full (lookup "cv-new" our_insights)
unfolding reconcile_health_insights lookup insert remove
synced_twice_example =
    synced_twice (λ names. names) (λ n names. refl) all_written all_written held_insights
      our_insights refl refl "cv-new"

-- The update is over.
abbrev completed_version : ClusterVersion
completed_version = record cluster_version {
  history =
      record {
        state = completed_update;
        started_time = 40;
        completion_time = some 60;
        version = "4.19.0";
        image = "i2";
      }
      ∷ [];
  conditions =
      record {
        type = "Progressing";
        status = condition_false;
        reason = "";
        message = "done";
        last_transition_time = 60;
      }
      ∷ [];
}

abbrev completed_insight : ClusterVersionProgressInsightStatus
completed_insight =
    version_insight_with fixed_point helpers 100 90 completed_version (some version_insight)
      (progressing_operator ∷ []) none

-- An operator that has reached the version.
abbrev pub done_operator : ClusterOperator
done_operator = record progressing_operator {
  name = "dns";
  versions = record { name = operator_version_name; version = "4.19.0" } ∷ [];
}

-- The update is under way, and one of two operators is done.
abbrev progressing_version : ClusterVersion
progressing_version = record cluster_version {
  conditions =
      record {
        type = "Progressing";
        status = condition_true;
        reason = "";
        message = "Working towards 4.19.0";
        last_transition_time = 40;
      }
      ∷ [];
}

abbrev pub half_done : List ClusterOperator
half_done = progressing_operator ∷ done_operator ∷ []

abbrev progressing_insight : ClusterVersionProgressInsightStatus
progressing_insight =
    version_insight_with fixed_point helpers 100 90 progressing_version (some version_insight)
      half_done (some 4320000000090)

half_completed : progressing_insight.completion ≡ 50
unfolding updating_of is_control_plane_updating find_operator_status_condition has_target_version
    operator_completion
half_completed = refl

assess_cluster_version_lem_example :
    (progressing_insight.assessment ≡ version_completed
      → (progressing_insight.completion ≡ 100)
        × (progressing_insight.estimated_completed_at ≡ none))
    × (progressing_insight.assessment ≢ version_completed
        → (progressing_insight.estimated_completed_at ≢ none)
          × (progressing_insight.completed_at ≡ none))
    × (progressing_insight.completion ≤ 100)
unfolding assess_cluster_version updating_of is_control_plane_updating
    find_operator_status_condition has_target_version operator_completion observed_progress
    estimate_completion baseline_duration first_completed add_duration sub_times round_duration
assess_cluster_version_lem_example =
    assess_cluster_version_lem fixed_point fixed_point-IsOrdered helpers 100 90 progressing_version
      (some version_insight) half_done (omega arith) progressing_insight refl

abbrev libraries : Libraries
libraries = record {
  conditions = helpers;
  group = "g";
  digest = λ text. text;
  unsorted = λ names. names;
}

abbrev version_reads : VersionReads
version_reads = record {
  get_version = found completed_version;
  get_insight = found completed_insight;
  list_operators = listed (progressing_operator ∷ []);
  list_insights = listed held_insights;
}

reconcile_version_settles_example :
    reconcile_version libraries answers all_written fixed_point 200 190 190 version_reads
    ≡ some (
        synchronize libraries answers all_written []
          (listed held_insights)
          (health_insights libraries answers all_written completed_version 190))
unfolding assess_cluster_version updating_of is_control_plane_updating
    find_operator_status_condition
reconcile_version_settles_example =
    reconcile_version_settles fixed_point libraries 100 200 90 190 completed_version
      (some version_insight) (progressing_operator ∷ []) refl answers all_written 190 version_reads
      completed_insight (omega arith) refl refl refl refl

has_target_version-agrees_example :
    has_target_version "4.19.0" progressing_operator.versions
    ≡ is_version_updated "4.19.0" progressing_operator.versions
has_target_version-agrees_example =
    has_target_version-agrees "4.19.0" progressing_operator.versions (omega arith)
