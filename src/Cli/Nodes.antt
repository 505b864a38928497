-- ===== src/Cli/Nodes.antt =====
-- cmd/oc-update-status/nodes.go: the display data of a node. The estimate is kept as the duration
-- whose text the command shows.
use openshift_update_experie.Prelude.{
  ℕ, String, Bool, true, false, Option, none, some, if◌then◌else◌, ◌==◌,
}
use openshift_update_experie.Meta.{
  Condition, ConditionStatus, ConditionsApi, condition_true, condition_false, condition_unknown,
  condition_other, status_eq,
}
use openshift_update_experie.Api.{
  NodeProgressInsightStatus, updating_type, degraded_type, available_type, updating_reason,
  node_draining, node_updating, node_rebooting, node_paused, node_update_pending, node_completed,
}

-- `nodePhase`, in the order of its values.
pub data NodePhase : Type 0 where
  phase_state_draining phase_state_updating phase_state_rebooting phase_state_paused
        phase_state_pending phase_state_updated :
      NodePhase

-- `nodeAssessment`, in the order of its values.
pub data NodeAssessment : Type 0 where
  assessment_degraded assessment_unavailable assessment_progressing assessment_excluded
        assessment_outdated assessment_completed :
      NodeAssessment

pub record NodeDisplayData : Type 0 where
  pub name : String
  pub assessment : NodeAssessment
  pub phase : NodePhase
  pub version : String
  pub estimate : Option ℕ
  pub message : String
  pub is_unavailable : Bool
  pub is_degraded : Bool
  pub is_updating : Bool
  pub is_updated : Bool

-- The value 0 of both enumerations is where `assessNode` starts.
abbrev pub initial_display : NodeProgressInsightStatus → NodeDisplayData
initial_display status = record {
  name = status.name;
  assessment = assessment_degraded;
  phase = phase_state_draining;
  version = status.version;
  estimate = status.estimated_to_complete;
  message = status.message;
  is_unavailable = false;
  is_degraded = false;
  is_updating = false;
  is_updated = false;
}

abbrev working_phase : String → NodePhase → NodePhase
working_phase reason phase =
    if reason == updating_reason node_draining
    then phase_state_draining
    else if reason == updating_reason node_updating
    then phase_state_updating
    else if reason == updating_reason node_rebooting
    then phase_state_rebooting
    else phase

abbrev see_not_updating : String → NodeDisplayData → NodeDisplayData
see_not_updating reason d =
    if reason == updating_reason node_completed
    then record d {
      is_updated = true;
      assessment = assessment_completed;
      phase = phase_state_updated;
    }
    else if reason == updating_reason node_paused
    then record d { assessment = assessment_excluded; phase = phase_state_paused }
    else if reason == updating_reason node_update_pending
    then record d { assessment = assessment_outdated; phase = phase_state_pending }
    else d

abbrev pub see_updating : ConditionStatus → String → NodeDisplayData → NodeDisplayData
see_updating condition_true reason d = record d {
  is_updating = true;
  assessment = assessment_progressing;
  phase = working_phase reason d.phase;
}
see_updating condition_unknown reason d = d
see_updating condition_false reason d = see_not_updating reason d
see_updating (condition_other s) reason d = see_not_updating reason d

abbrev pub see_degraded : ConditionStatus → NodeDisplayData → NodeDisplayData
see_degraded s d =
    if status_eq s condition_true
    then record d { is_degraded = true; assessment = assessment_degraded }
    else record d { is_degraded = false }

abbrev pub see_available : ConditionStatus → NodeDisplayData → NodeDisplayData
see_available s d =
    if status_eq s condition_true
    then record d { is_unavailable = false }
    else record d { is_unavailable = true; assessment = assessment_unavailable }

-- `if c := meta.FindStatusCondition(...); c != nil { ... }`.
abbrev pub when_found :
    Option Condition
    → (Condition → NodeDisplayData → NodeDisplayData)
    → NodeDisplayData
    → NodeDisplayData
when_found none f d = d
when_found (some c) f d = f c d

module _ (api : ConditionsApi) where
  unfoldable pub assess_node : NodeProgressInsightStatus → NodeDisplayData
  assess_node status =
      let find = api.find_status_condition status.conditions in
      let with_updating =
        when_found (find updating_type) (λ c. see_updating c.status c.reason)
          (initial_display status) in
      let with_degraded =
        when_found (find degraded_type) (λ c. see_degraded c.status) with_updating in
      when_found (find available_type) (λ c. see_available c.status) with_degraded
