-- ===== src/Cli/Shown.antt =====
-- What the command shows of a node that the controller evaluated
-- (cmd/oc-update-status/nodes.go and internal/controller/nodestate).
use openshift_update_experie.Prelude.{
  String, ◌≡◌, refl, ap, ◌∙◌, inl, inr, Bool, true, false, not, ◌&&◌, ◌||◌, List, some,
  if◌then◌else◌, arith, Bool-cases,
}
use openshift_update_experie.Meta.{
  Time, is_zero, Condition, ConditionsApi, condition_true, condition_false, stamp,
}
use openshift_update_experie.Meta.Laws.{condition_of, find_status_condition-condition_of}
use openshift_update_experie.Mco.{Node, MachineConfigPool, LayeredNodeState}
use openshift_update_experie.Api.{NodeProgressInsightStatus, available_type, updating_reason}
use openshift_update_experie.NodeState.{
  UpdatePhase, phase_pending, phase_draining, phase_updating, phase_rebooting, phase_paused,
  phase_completed, is_completed, is_draining, is_applying, determine_conditions,
  determine_available,
}
use openshift_update_experie.NodeState.Verdict.{
  updating_condition_tells_phase, degraded_condition_lem, result_available, stamp-content,
  status_of_phase, reason_of_phase,
}
use openshift_update_experie.Cli.Nodes.{
  NodePhase, phase_state_draining, phase_state_updating, phase_state_rebooting, phase_state_paused,
  phase_state_pending, phase_state_updated, NodeAssessment, assessment_degraded,
  assessment_unavailable, assessment_progressing, assessment_excluded, assessment_outdated,
  assessment_completed, NodeDisplayData, assess_node, see_updating, see_degraded, see_available,
  initial_display,
}

abbrev pub shown_phase : UpdatePhase → NodePhase
shown_phase phase_pending = phase_state_pending
shown_phase phase_draining = phase_state_draining
shown_phase phase_updating = phase_state_updating
shown_phase phase_rebooting = phase_state_rebooting
shown_phase phase_paused = phase_state_paused
shown_phase phase_completed = phase_state_updated

abbrev pub shown_assessment : UpdatePhase → NodeAssessment
shown_assessment phase_pending = assessment_outdated
shown_assessment phase_draining = assessment_progressing
shown_assessment phase_updating = assessment_progressing
shown_assessment phase_rebooting = assessment_progressing
shown_assessment phase_paused = assessment_excluded
shown_assessment phase_completed = assessment_completed

-- The display of a node with the given findings.
abbrev pub displayed : NodeProgressInsightStatus → UpdatePhase → Bool → Bool → NodeDisplayData
displayed i phase degraded unavailable = record {
  name = i.name;
  assessment =
      if unavailable
      then assessment_unavailable
      else if degraded
      then assessment_degraded
      else shown_assessment phase;
  phase = shown_phase phase;
  version = i.version;
  estimate = i.estimated_to_complete;
  message = i.message;
  is_unavailable = unavailable;
  is_degraded = degraded;
  is_updating = is_applying phase || is_draining phase;
  is_updated = is_completed phase;
}

shown_by_statuses :
    (i : NodeProgressInsightStatus) (phase : UpdatePhase) (degraded unavailable : Bool)
    → see_available (if unavailable then condition_false else condition_true) (
        see_degraded (if degraded then condition_true else condition_false) (
          see_updating
            (status_of_phase phase)
            (updating_reason (reason_of_phase phase))
            (initial_display i)))
      ≡ displayed i phase degraded unavailable
shown_by_statuses i phase_pending degraded unavailable = ground arith
shown_by_statuses i phase_draining degraded unavailable = ground arith
shown_by_statuses i phase_updating degraded unavailable = ground arith
shown_by_statuses i phase_rebooting degraded unavailable = ground arith
shown_by_statuses i phase_paused degraded unavailable = ground arith
shown_by_statuses i phase_completed degraded unavailable = ground arith

module _ (api : ConditionsApi) (wall : Time) (pool : MachineConfigPool) (node : Node)
    (is_updating is_updated is_unavailable is_degraded : Bool) (lns : LayeredNodeState)
    (existing : List Condition) (now : Time) where
  abbrev result : List Condition × String × UpdatePhase
  result =
      determine_conditions api wall pool node is_updating is_updated is_unavailable is_degraded lns
        existing now

  abbrev un : Bool
  un = is_unavailable && not is_updating

  available_status :
      (c : Condition) × (api.find_status_condition result.0 available_type ≡ some c)
      × (c.status ≡ (if un then condition_false else condition_true))
  unfolding determine_available
  available_status =
      let found =
        result_available api wall pool node is_updating is_updated is_unavailable is_degraded lns
          existing now in
      elim (Bool-cases un) [
        | inl e ↦ (
          determine_available lns true now,
          find_status_condition-condition_of api result.0 available_type ∙ found ∙ rw e refl,
          rw e refl,
        )
        | inr e ↦ (
          stamp wall (condition_of available_type existing) (determine_available lns false now),
          find_status_condition-condition_of api result.0 available_type ∙ found ∙ rw e refl,
          ap (λ k. k.status)
                (stamp-content wall (condition_of available_type existing)
                  (determine_available lns false now))
              ∙ rw e refl,
        )
      ]

  -- The command shows an evaluated node in the phase in which the controller found it, and as
  -- unavailable if it is and is not being updated, else as degraded if it is, else as the phase
  -- says. (The time of the evaluation is not the zero time.)
  pub assess_node_shows_evaluation :
      (i : NodeProgressInsightStatus)
      → i.conditions ≡ result.0
      → is_zero now ≡ false
      → assess_node api i ≡ displayed i result.2 is_degraded un
  unfolding assess_node
  assess_node_shows_evaluation i e h =
      let (u, found_u, status_u, reason_u, _) =
        updating_condition_tells_phase api wall pool node is_updating is_updated is_unavailable
          is_degraded lns existing now h in
      let (d, found_d, status_d) =
        degraded_condition_lem api wall pool node is_updating is_updated is_unavailable is_degraded
          lns existing now in
      let (a, found_a, status_a) = available_status in
      rw (e, found_u, found_d, found_a, status_u, reason_u, status_d, status_a)
        (shown_by_statuses i result.2 is_degraded un)
