-- ===== src/Versions/Difference.antt =====
-- `hasSignificantDifference` of internal/controller/clusterversions/impl.go. `Sub` of two times is a
-- number of nanoseconds, held within the int64.
use openshift_update_experie.Prelude.{
  ℕ, ◌-◌, ◌*◌, ◌^◌, Bool, true, false, not, ◌&&◌, ◌||◌, List, [], ◌∷◌, Option, none, some,
  if◌then◌else◌, ◌==◌, ltb, leb, eqb,
}
use openshift_update_experie.Meta.{Time, is_zero, Condition, status_eq}
use openshift_update_experie.Api.{
  ClusterVersionProgressInsightStatus, ClusterVersionAssessment, version_unknown,
  version_progressing, version_completed, version_degraded, Version,
}

-- `significantTimeDifference`, 30 seconds.
abbrev pub significant_time_difference : ℕ
significant_time_difference = 30 * 1000000000

-- `diff < significantTimeDifference` after `diff = new.Sub(old)` and, below zero, `diff = -diff`:
-- `Sub` answers the least int64, -2 ^ 63, for every difference beyond it, and its negation is itself.
abbrev pub is_small : Time → Time → Bool
is_small old new =
    if leb old new
    then ltb (new - old) significant_time_difference
    else if leb (2 ^ 63) (old - new)
    then true
    else ltb (old - new) significant_time_difference

unfoldable pub time_fields_equal_with_tolerance : Time → Time → Bool
time_fields_equal_with_tolerance old new =
    if is_zero old && is_zero new
    then true
    else if is_zero old || is_zero new
    then false
    else is_small old new

abbrev pub optional_times_equal : Option Time → Option Time → Bool
optional_times_equal none none = true
optional_times_equal none (some t) = false
optional_times_equal (some t) none = false
optional_times_equal (some t) (some u) = time_fields_equal_with_tolerance t u

abbrev pub assessment_eq : ClusterVersionAssessment → ClusterVersionAssessment → Bool
assessment_eq version_unknown version_unknown = true
assessment_eq version_progressing version_progressing = true
assessment_eq version_completed version_completed = true
assessment_eq version_degraded version_degraded = true
assessment_eq _ _ = false

-- Of the versions, the metadata are not compared.
abbrev pub previous_equal : Option Version → Option Version → Bool
previous_equal none none = true
previous_equal none (some v) = false
previous_equal (some v) none = false
previous_equal (some v) (some w) = v.version == w.version

abbrev pub condition_equal : Condition → Condition → Bool
condition_equal c d =
    c.type == d.type
    && (status_eq c.status d.status
        && (c.reason == d.reason
            && (c.message == d.message
                && time_fields_equal_with_tolerance c.last_transition_time d.last_transition_time)))

abbrev pub conditions_equal : List Condition → List Condition → Bool
conditions_equal [] [] = true
conditions_equal [] (d ∷ ds) = false
conditions_equal (c ∷ cs) [] = false
conditions_equal (c ∷ cs) (d ∷ ds) = condition_equal c d && conditions_equal cs ds

unfoldable pub has_significant_difference :
    ClusterVersionProgressInsightStatus → ClusterVersionProgressInsightStatus → Bool
has_significant_difference old new =
    not (
      old.name == new.name
      && (assessment_eq old.assessment new.assessment && eqb old.completion new.completion))
    || (not (
          old.versions.target.version == new.versions.target.version
          && previous_equal old.versions.previous new.versions.previous)
        || (not (time_fields_equal_with_tolerance old.started_at new.started_at)
            || (not (
                  time_fields_equal_with_tolerance old.last_observed_progress
                    new.last_observed_progress)
                || (not (optional_times_equal old.completed_at new.completed_at)
                    || (not (
                          optional_times_equal old.estimated_completed_at
                            new.estimated_completed_at)
                        || not (conditions_equal old.conditions new.conditions))))))
