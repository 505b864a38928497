-- ===== src/Versions/Assessment.antt =====
-- `assessClusterVersion` of internal/controller/clusterversions/impl.go.
use openshift_update_experie.Prelude.{
  ℕ, ◌^◌, ◌%◌, signed, sub_times, add_duration, String, Bool, true, false, not, ◌&&◌, ◌||◌, List,
  [], ◌∷◌, Option, none, some, if◌then◌else◌, ◌==◌, eqb, length, count, as_list,
}
use openshift_update_experie.Meta.{
  Time, is_zero, Condition, ConditionStatus, ConditionsApi, condition_true, condition_false,
  condition_unknown, condition_other,
}
use openshift_update_experie.Api.{
  ClusterVersionProgressInsightStatus, ClusterVersionAssessment, version_unknown,
  version_progressing, version_completed,
}
use openshift_update_experie.Cluster.{
  ClusterVersion, ClusterOperator, OperandVersion, UpdateHistory,
}
use openshift_update_experie.Operators.{
  find_operator_status_condition, operator_progressing, operator_version_name,
}
use openshift_update_experie.Versions.Float.{Float64, whole}
use openshift_update_experie.Versions.Updating.{is_control_plane_updating, versions_from_history}
use openshift_update_experie.Versions.Estimate.{baseline_duration, estimate_completion}

abbrev Status : Type 0
Status = ClusterVersionProgressInsightStatus

abbrev pub first_item : List UpdateHistory → Option UpdateHistory
first_item [] = none
first_item (h ∷ hs) = some h

-- The Updating condition of a cluster version, with the start and the completion of the update.
unfoldable pub updating_of : ClusterVersion → Condition × Time × Time
updating_of cv =
    is_control_plane_updating (find_operator_status_condition cv.conditions operator_progressing)
      (first_item cv.history)

-- The loop over an operator's versions stops at the first one of the operator itself.
unfoldable pub has_target_version : String → List OperandVersion → Bool
has_target_version target [] = false
has_target_version target (v ∷ vs) =
    if v.name == operator_version_name then v.version == target else has_target_version target vs

-- `updatedOperators`, an int32 kept as its bit pattern.
abbrev pub updated_operators : String → List ClusterOperator → ℕ
updated_operators target operators =
    count (λ co. has_target_version target co.versions) operators % 2 ^ 32

abbrev pub assessment_of_status : ConditionStatus → ClusterVersionAssessment
assessment_of_status condition_true = version_progressing
assessment_of_status condition_false = version_completed
assessment_of_status condition_unknown = version_unknown
assessment_of_status (condition_other s) = version_unknown

abbrev pub is_over : ClusterVersionAssessment → Bool
is_over version_completed = true
is_over _ = false

-- What the previous insight says; a new one is `none`, and has all fields empty.
abbrev pub previous_progress : Option Status → Time
previous_progress none = 0
previous_progress (some old) = old.last_observed_progress

abbrev pub previous_completion : Option Status → ℕ
previous_completion none = 0
previous_completion (some old) = old.completion

abbrev pub previous_conditions : Option Status → List Condition
previous_conditions none = []
previous_conditions (some old) = old.conditions

-- `LastObservedProgress`.
unfoldable pub observed_progress : Time → Option Status → ℕ → Time
observed_progress now previous completion =
    if not (eqb completion (previous_completion previous)) || is_zero (previous_progress previous)
    then now
    else previous_progress previous

module _ (api : ConditionsApi) where
  -- The previous Updating condition is put in first, so that its time can be kept.
  abbrev pub version_conditions : Time → Option Status → Condition → List Condition
  version_conditions wall previous updating =
      api.set_status_condition wall
        (as_list (api.find_status_condition (previous_conditions previous) updating.type)) updating

module _ {F : Type 0} (float : Float64 F) where
  open float use {of_int, mul, div, le, to_int32}

  -- `coCompletion` before the switch.
  unfoldable pub operator_completion : String → List ClusterOperator → F
  operator_completion target [] = whole float 0
  operator_completion target (co ∷ cos) =
      div (of_int (signed (2 ^ 32) (updated_operators target (co ∷ cos))))
        (whole float (length (co ∷ cos)))

  abbrev pub co_completion : ClusterVersion → List ClusterOperator → F
  co_completion cv operators =
      if is_over (assessment_of_status (updating_of cv).0.status)
      then whole float 1
      else operator_completion cv.desired_version operators

  -- `EstimatedCompletedAt`; the outer `none` is the panic of the baseline.
  abbrev pub estimated_at :
      Time → ClusterVersion → List ClusterOperator → Time → Option (Option Time)
  estimated_at now cv operators progress =
      let started = (updating_of cv).1 in
      let co = co_completion cv operators in
      if le co (whole float 1) && not (is_over (assessment_of_status (updating_of cv).0.status))
      then (elim (baseline_duration cv.history) [
        | none ↦ none
        | some baseline ↦ some (
            some (
              add_duration now (
                estimate_completion float baseline (sub_times progress started)
                  (sub_times now started) co)))
      ])
      else some none

  module _ (api : ConditionsApi) where
    -- The insight, given the estimate.
    abbrev pub version_insight_with :
        Time → Time → ClusterVersion → Option Status → List ClusterOperator → Option Time → Status
    version_insight_with wall now cv previous operators estimated =
        let (updating, started, completed) = updating_of cv in
        let completion = to_int32 (mul (co_completion cv operators) (whole float 100)) in
        record {
          conditions = version_conditions api wall previous updating;
          name = cv.name;
          assessment = assessment_of_status updating.status;
          versions = versions_from_history cv.history;
          completion = completion;
          last_observed_progress = observed_progress now previous completion;
          started_at = started;
          completed_at = if is_zero completed then none else some completed;
          estimated_completed_at = estimated;
        }

    -- The insight of `assessClusterVersion`; `none` is a panic. Of the two clocks, `wall` is that of
    -- `SetStatusCondition`.
    unfoldable pub assess_cluster_version :
        Time → Time → ClusterVersion → Option Status → List ClusterOperator → Option Status
    unfolding updating_of observed_progress
    assess_cluster_version wall now cv previous operators =
        let completion = to_int32 (mul (co_completion cv operators) (whole float 100)) in
        elim (estimated_at now cv operators (observed_progress now previous completion)) [
          | none ↦ none
          | some estimated ↦ some (version_insight_with wall now cv previous operators estimated)
        ]
