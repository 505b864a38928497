-- ===== src/NodeState/Verdict.antt =====
-- What the condition list of internal/controller/nodestate/conditions.go says of a node.
use openshift_update_experie.Prelude.{
  String, ◌≡◌, refl, sym, ap, ◌∙◌, Bool, true, false, not, ◌&&◌, List, Option, none, some,
  if◌then◌else◌, arith,
}
use openshift_update_experie.Meta.{
  Time, is_zero, Condition, ConditionStatus, ConditionsApi, condition_true, condition_false, stamp,
  status_eq,
}
use openshift_update_experie.Meta.Laws.{content, condition_of, find_status_condition-condition_of}
use openshift_update_experie.Mco.{
  Node, MachineConfigPool, LayeredNodeState, get, get_unavailable_message, get_unavailable_since,
  machine_config_daemon_reason_annotation_key,
}
use openshift_update_experie.Api.{
  updating_type, available_type, degraded_type, NodeUpdatingReason, updating_reason, node_draining,
  node_updating, node_rebooting, node_paused, node_update_pending, node_completed,
}
use openshift_update_experie.NodeState.State.{
  UpdatePhase, phase_pending, phase_draining, phase_updating, phase_rebooting, phase_paused,
  phase_completed,
}
use openshift_update_experie.NodeState.Conditions.{
  determine_updating, determine_available, determine_degraded, determine_conditions,
  determine_message,
}
use openshift_update_experie.NodeState.Merge.{
  merge_conditions-merged, merged_updating, merged_available, merged_degraded,
}

-- The update is under way in three of the phases.
abbrev pub status_of_phase : UpdatePhase → ConditionStatus
status_of_phase phase_draining = condition_true
status_of_phase phase_updating = condition_true
status_of_phase phase_rebooting = condition_true
status_of_phase phase_pending = condition_false
status_of_phase phase_paused = condition_false
status_of_phase phase_completed = condition_false

abbrev pub reason_of_phase : UpdatePhase → NodeUpdatingReason
reason_of_phase phase_draining = node_draining
reason_of_phase phase_updating = node_updating
reason_of_phase phase_rebooting = node_rebooting
reason_of_phase phase_pending = node_update_pending
reason_of_phase phase_paused = node_paused
reason_of_phase phase_completed = node_completed

pub updating_agrees :
    (pool : MachineConfigPool) (node : Node) (is_updating is_updated : Bool) (now : Time)
    → let (phase, c) = determine_updating pool node is_updating is_updated now in
      (c.type ≡ updating_type)
      × (c.status ≡ status_of_phase phase)
      × (c.reason ≡ updating_reason (reason_of_phase phase))
      × (c.last_transition_time ≡ now)
unfolding determine_updating
updating_agrees pool node is_updating is_updated now = ground arith

pub available-type :
    (lns : LayeredNodeState) (un : Bool) (now : Time)
    → (determine_available lns un now).type ≡ available_type
unfolding determine_available
available-type lns true now = refl
available-type lns false now = refl

pub degraded-type :
    (node : Node) (b : Bool) (now : Time) → (determine_degraded node b now).type ≡ degraded_type
unfolding determine_degraded
degraded-type node true now = refl
degraded-type node false now = refl

-- The time that a new condition gets: that of the old one if the status is the same.
abbrev pub transition_time : Option Condition → ConditionStatus → Time → Time
transition_time none status now = now
transition_time (some old) status now =
    if status_eq old.status status then old.last_transition_time else now

stamp-time :
    (wall : Time) (old : Option Condition) (c : Condition)
    → is_zero c.last_transition_time ≡ false
    → (stamp wall old c).last_transition_time ≡ transition_time old c.status c.last_transition_time
stamp-time wall none c h = rw h
stamp-time wall (some o) c h = rw h

pub stamp-content :
    (wall : Time) (old : Option Condition) (c : Condition) → content (stamp wall old c) ≡ content c
stamp-content wall none c = refl
stamp-content wall (some o) c = refl

pub degraded-status :
    (node : Node) (b : Bool) (now : Time)
    → (determine_degraded node b now).status ≡ (if b then condition_true else condition_false)
unfolding determine_degraded
degraded-status node true now = refl
degraded-status node false now = refl

unavailable_message :
    (lns : LayeredNodeState) (node : Node) (b : Bool) (now : Time)
    → determine_message true b (determine_available lns true now) (determine_degraded node b now)
      ≡ (if b
          then get node.annotations machine_config_daemon_reason_annotation_key
          else get_unavailable_message lns)
unfolding determine_available determine_degraded
unavailable_message lns node true now = refl
unavailable_message lns node false now = refl

module _ (api : ConditionsApi) (wall : Time) (pool : MachineConfigPool) (node : Node)
    (is_updating is_updated is_unavailable is_degraded : Bool) (lns : LayeredNodeState)
    (existing : List Condition) (now : Time) where
  abbrev result : List Condition × String × UpdatePhase
  result =
      determine_conditions api wall pool node is_updating is_updated is_unavailable is_degraded lns
        existing now

  abbrev un : Bool
  un = is_unavailable && not is_updating

  abbrev u : Condition
  u = (determine_updating pool node is_updating is_updated now).1

  result_updating :
      condition_of updating_type result.0
      ≡ some (stamp wall (condition_of updating_type existing) u)
  unfolding determine_conditions
  result_updating =
      ap (condition_of updating_type) (
        merge_conditions-merged api wall existing un u (determine_available lns un now)
          (determine_degraded node is_degraded now))
      ∙ merged_updating wall existing u (determine_available lns un now)
          (determine_degraded node is_degraded now)
          (updating_agrees pool node is_updating is_updated now).0 (available-type lns un now)
          (degraded-type node is_degraded now) un

  pub result_available :
      condition_of available_type result.0
      ≡ some (
          if un
          then determine_available lns un now
          else stamp wall (condition_of available_type existing) (determine_available lns un now))
  unfolding determine_conditions
  result_available =
      ap (condition_of available_type) (
        merge_conditions-merged api wall existing un u (determine_available lns un now)
          (determine_degraded node is_degraded now))
      ∙ merged_available wall existing u (determine_available lns un now)
          (determine_degraded node is_degraded now)
          (updating_agrees pool node is_updating is_updated now).0 (available-type lns un now)
          (degraded-type node is_degraded now) un

  pub result_degraded :
      condition_of degraded_type result.0
      ≡ some (
          stamp wall
            (condition_of degraded_type existing)
            (determine_degraded node is_degraded now))
  unfolding determine_conditions
  result_degraded =
      ap (condition_of degraded_type) (
        merge_conditions-merged api wall existing un u (determine_available lns un now)
          (determine_degraded node is_degraded now))
      ∙ merged_degraded wall existing u (determine_available lns un now)
          (determine_degraded node is_degraded now)
          (updating_agrees pool node is_updating is_updated now).0 (available-type lns un now)
          (degraded-type node is_degraded now) un

  -- At a time of evaluation that is not the zero time, the Updating condition of the result tells
  -- the phase: its status says whether the phase is draining, updating or rebooting, its reason
  -- names the phase, and its time is that of the existing Updating condition if the status has not
  -- changed, and otherwise the time of the evaluation.
  pub updating_condition_tells_phase :
      is_zero now ≡ false
      → (c : Condition) × (api.find_status_condition result.0 updating_type ≡ some c)
        × (c.status ≡ status_of_phase result.2)
        × (c.reason ≡ updating_reason (reason_of_phase result.2))
        × (c.last_transition_time
            ≡ transition_time
                (api.find_status_condition existing updating_type)
                (status_of_phase result.2)
                now)
  unfolding determine_conditions
  updating_condition_tells_phase h =
      let old = condition_of updating_type existing in
      let agree = updating_agrees pool node is_updating is_updated now in
      let same = stamp-content wall old u in
      (
        stamp wall old u,
        find_status_condition-condition_of api result.0 updating_type ∙ result_updating,
        ap (λ k. k.status) same ∙ agree.1,
        ap (λ k. k.reason) same ∙ agree.2,
        stamp-time wall old u (rw agree.3 h)
            ∙ (λ i. transition_time old (agree.1 i) (agree.3 i))
            ∙ ap (λ o. transition_time o (status_of_phase result.2) now)
                (sym (find_status_condition-condition_of api existing updating_type)),
      )

  abbrev since : Time
  since = get_unavailable_since lns

  -- When a node is unavailable and not being updated, its Available condition is false, carries the
  -- collected reasons, and keeps the time since when the node is unavailable (the time of the
  -- evaluation if that is unknown), whatever the existing conditions are. The message of the result
  -- is then that text, unless the node is degraded, in which case it is the reason that the
  -- machine-config daemon gives.
  unavailable_since_is_kept :
      un ≡ true
      → (c : Condition) × (api.find_status_condition result.0 available_type ≡ some c)
        × (c.status ≡ condition_false)
        × (c.message ≡ get_unavailable_message lns)
        × (c.last_transition_time ≡ (if is_zero since then now else since))
        × (result.1 ≡ (
            if is_degraded
            then get node.annotations machine_config_daemon_reason_annotation_key
            else get_unavailable_message lns))
  unfolding determine_conditions determine_available determine_degraded
  unavailable_since_is_kept h = (
    determine_available lns true now,
    find_status_condition-condition_of api result.0 available_type ∙ result_available ∙ rw h,
    refl,
    refl,
    refl,
    rw h (unavailable_message lns node is_degraded now),
  )

  -- The Degraded condition of the result is true exactly for a degraded node.
  pub degraded_condition_lem :
      (c : Condition) × (api.find_status_condition result.0 degraded_type ≡ some c)
      × (c.status ≡ (if is_degraded then condition_true else condition_false))
  degraded_condition_lem = (
    stamp wall (condition_of degraded_type existing) (determine_degraded node is_degraded now),
    find_status_condition-condition_of api result.0 degraded_type ∙ result_degraded,
    ap (λ k. k.status) (stamp-content wall (condition_of degraded_type existing) _)
        ∙ degraded-status node is_degraded now,
  )
