-- ===== src/Examples/Others.antt =====
-- Cluster operators and the cluster version.
use openshift_update_experie.Api.{
  operator_reason_progressing, operator_reason_updated, operator_updating_type,
}
use openshift_update_experie.Client.{finished}
use openshift_update_experie.Cluster.{found}
use openshift_update_experie.Examples.Data.{
  answers, cluster_version, helpers, later_insight, new_time, old_time, progressing_operator,
  version_insight,
}
use openshift_update_experie.Meta.{Condition, condition_true}
use openshift_update_experie.Meta.Laws.{contents}
use openshift_update_experie.Operators.{
  assess_cluster_operator, is_version_updated, last_condition, operator_progressing,
  reconcile_operator,
}
use openshift_update_experie.Operators.Settles.{reconcile_operator_settles}
use openshift_update_experie.Operators.Verdict.{assess_cluster_operator_updating, is_progressing}
use openshift_update_experie.Prelude.{
  [], false, none, refl, some, true, ◌+◌, ◌<◌, ◌^◌, ◌↔◌, ◌≡◌, ◌≤◌,
}
use openshift_update_experie.Versions.{
  assessment_eq, has_significant_difference, previous_equal, significant_time_difference,
  time_fields_equal_with_tolerance,
}
use openshift_update_experie.Versions.Tolerance.{
  has_significant_difference_lem, time_fields_equal_with_tolerance_lem,
}

assess_cluster_operator_updating_example :
    (c : Condition) × (helpers.find_status_condition
        (assess_cluster_operator helpers 100 progressing_operator "4.19.0" []).conditions
        operator_updating_type
      ≡ some c)
    × ((c.reason ≡ operator_reason_updated)
        ↔ ((is_version_updated "4.19.0" progressing_operator.versions) ≡ true))
    × ((c.status ≡ condition_true) ↔ (
        ((is_version_updated "4.19.0" progressing_operator.versions) ≡ false)
        × (is_progressing (last_condition operator_progressing progressing_operator.conditions none)
            ≡ true)))
    × (c.status ≡ condition_true → c.reason ≡ operator_reason_progressing)
assess_cluster_operator_updating_example =
    assess_cluster_operator_updating helpers 100 200 progressing_operator "4.19.0" []

reconcile_operator_settles_example :
    reconcile_operator helpers
      (λ old status. true)
      200
      (found progressing_operator)
      (found (assess_cluster_operator helpers 100 progressing_operator "4.19.0" []))
      (found cluster_version)
      answers
    ≡ ([], finished)
reconcile_operator_settles_example =
    reconcile_operator_settles helpers 100 200 progressing_operator "4.19.0" (λ old status. true)
      cluster_version [] answers (λ s. refl) refl

time_fields_equal_with_tolerance_lem_example :
    (0 < old_time
      → 0 < new_time
      → old_time < new_time + 2 ^ 63
      → (time_fields_equal_with_tolerance old_time new_time ≡ true) ↔ (
          (old_time < new_time + significant_time_difference)
          × (new_time < old_time + significant_time_difference)))
    × (0 < new_time
        → new_time + 2 ^ 63 ≤ old_time
        → time_fields_equal_with_tolerance old_time new_time ≡ true)
    × ((time_fields_equal_with_tolerance old_time 0 ≡ true) ↔ (old_time ≡ 0))
    × ((time_fields_equal_with_tolerance 0 new_time ≡ true) ↔ (new_time ≡ 0))
time_fields_equal_with_tolerance_lem_example =
    time_fields_equal_with_tolerance_lem old_time new_time

has_significant_difference_lem_example :
    (has_significant_difference version_insight version_insight ≡ false)
    × (has_significant_difference version_insight later_insight ≡ false
        → (version_insight.name ≡ later_insight.name)
          × (assessment_eq version_insight.assessment later_insight.assessment ≡ true)
          × (version_insight.completion ≡ later_insight.completion)
          × (version_insight.versions.target.version ≡ later_insight.versions.target.version)
          × (previous_equal version_insight.versions.previous later_insight.versions.previous
              ≡ true)
          × (contents version_insight.conditions ≡ contents later_insight.conditions))
has_significant_difference_lem_example =
    has_significant_difference_lem version_insight later_insight
