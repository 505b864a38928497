-- ===== src/NodeState/Phases.antt =====
-- The phase and the estimate of an evaluated node (internal/controller/nodestate/assess.go).
use openshift_update_experie.Prelude.{
  String, ◌≡◌, refl, ap, ◌∙◌, ◌⊎◌, inl, inr, Bool, true, false, List, [], ◌∷◌, Option, none, some,
  if◌then◌else◌, ◌==◌, eq_iff, arith, Bool-cases,
}
use openshift_update_experie.Meta.{
  Time, Condition, ConditionsApi, condition_true, condition_false, stamp,
}
use openshift_update_experie.Meta.Laws.{condition_of}
use openshift_update_experie.Mco.{
  Node, MachineConfigPool, LayeredNodeState, get, is_unavailable, new_layered_node_state,
  desired_drainer_annotation_key, last_applied_drainer_annotation_key,
  machine_config_daemon_state_annotation_key, machine_config_daemon_state_done,
}
use openshift_update_experie.Api.{available_type, degraded_type, NodeProgressInsightStatus}
use openshift_update_experie.NodeState.State.{NodeState, UpdatePhase, phase_completed}
use openshift_update_experie.NodeState.Conditions.{
  determine_updating, determine_available, determine_degraded, determine_conditions,
  is_node_draining,
}
use openshift_update_experie.NodeState.Assess.{
  evaluate, evaluate_node, evaluate_is_updated, evaluate_is_updating, is_node_degraded,
  estimate_from_phase, convert_state_to_insight, insight_of_state, blocks_estimate,
}
use openshift_update_experie.NodeState.Verdict.{
  result_degraded, result_available, degraded-status, degraded-type, stamp-content,
}

-- Updated and being updated exclude one another.
updated_not_updating :
    (node : Node) (version_of : String → Option String) (desired : String)
    → evaluate_is_updated node version_of desired ≡ true
    → evaluate_is_updating node version_of desired ≡ false
unfolding evaluate_is_updating
updated_not_updating node version_of desired h = rw h

phase_of_updated :
    (pool : MachineConfigPool) (node : Node) (now : Time)
    → (determine_updating pool node false true now).0 ≡ phase_completed
unfolding determine_updating
phase_of_updated pool node now = refl

-- The annotation that says what the drain controller was asked for, and the one that says what it
-- did last.
abbrev pub desired_drain : Node → String
desired_drain node = get node.annotations desired_drainer_annotation_key

abbrev pub applied_drain : Node → String
applied_drain node = get node.annotations last_applied_drainer_annotation_key

abbrev pub mcd_state : Node → String
mcd_state node = get node.annotations machine_config_daemon_state_annotation_key

completed_cases :
    (pool : MachineConfigPool) (node : Node) (upd updd : Bool) (now : Time)
    → (determine_updating pool node upd updd now).0 ≡ phase_completed
    → ((upd ≡ false) × (updd ≡ true))
      ⊎ ((upd ≡ true)
          × (mcd_state node ≡ machine_config_daemon_state_done)
          × ((desired_drain node ≡ "") ⊎ (applied_drain node ≡ "")))
unfolding determine_updating is_node_draining
completed_cases pool node upd updd now h = ground (
  arith,
  eq_iff (mcd_state node) machine_config_daemon_state_done,
  eq_iff (desired_drain node) "",
  eq_iff (applied_drain node) "",
)

module _ (api : ConditionsApi) (group : String) (wall : Time) (node : Node)
    (pool : MachineConfigPool) (version_of : String → Option String) (desired : String)
    (existing : List Condition) (now : Time) where
  abbrev state : NodeState
  state = evaluate api group wall node pool version_of desired existing now

  -- A node that is updated (its current config has the desired version, and it has no desired config
  -- or has it as its current one) is completed, whatever else is true of it and of its pool; and a
  -- node is completed only for this reason, or because its update is under way, its daemon reports
  -- Done and one of its two drain annotations is missing or empty.
  pub phase_completed_lem :
      (evaluate_is_updated node version_of desired ≡ true → state.phase ≡ phase_completed)
      × (state.phase ≡ phase_completed
          → (evaluate_is_updated node version_of desired ≡ true)
            ⊎ ((evaluate_is_updating node version_of desired ≡ true)
                × (mcd_state node ≡ machine_config_daemon_state_done)
                × ((desired_drain node ≡ "") ⊎ (applied_drain node ≡ ""))))
  unfolding evaluate determine_conditions
  phase_completed_lem = (
    λ h. rw (updated_not_updating node version_of desired h, h) (phase_of_updated pool node now),
    λ h.
        elim (completed_cases pool node (evaluate_is_updating node version_of desired)
          (evaluate_is_updated node version_of desired) now h) [
            | inl old ↦ inl old.1
            | inr new ↦ inr new
          ],
  )

found_or_later {ℓ} :
    {A : Type ℓ} (b : Bool) (x c : A) (rest : Option A)
    → (if b then some x else rest) ≡ some c
    → (x ≡ c) ⊎ (rest ≡ some c)
found_or_later true x c rest h = inl (cc)
found_or_later false x c rest h = inr h

blocked :
    (phase : UpdatePhase) (cs : List Condition) (t : String) (c : Condition)
    → condition_of t cs ≡ some c
    → blocks_estimate c ≡ true
    → estimate_from_phase phase cs ≡ none
unfolding condition_of estimate_from_phase
blocked phase [] t c h b = cc
blocked phase (x ∷ cs) t c h b = elim (Bool-cases (blocks_estimate x)) [
  | inl e ↦ rw e
  | inr e ↦ rw e (elim (found_or_later (x.type == t) x c (condition_of t cs) h) [
    | inl p ↦ cc (ap blocks_estimate p)
    | inr q ↦ blocked phase cs t c q b
  ])
]

blocks_degraded :
    (c : Condition) → c.type ≡ degraded_type → c.status ≡ condition_true → blocks_estimate c ≡ true
blocks_degraded c e h = rw (e, h) refl

blocks_unavailable :
    (c : Condition)
    → c.type ≡ available_type
    → c.status ≡ condition_false
    → blocks_estimate c ≡ true
blocks_unavailable c e h = rw (e, h) refl

module _ (api : ConditionsApi) (wall : Time) (pool : MachineConfigPool) (node : Node)
    (upd updd unavailable degraded : Bool) (lns : LayeredNodeState) (existing : List Condition)
    (now : Time) (phase : UpdatePhase) where
  abbrev conditions : List Condition
  conditions =
      (determine_conditions api wall pool node upd updd unavailable degraded lns existing now).0

  degraded_blocks : degraded ≡ true → estimate_from_phase phase conditions ≡ none
  degraded_blocks h =
      let old = condition_of degraded_type existing in
      let d = determine_degraded node degraded now in
      blocked phase conditions degraded_type (stamp wall old d)
        (result_degraded api wall pool node upd updd unavailable degraded lns existing now)
        (blocks_degraded (stamp wall old d)
          (ap (λ k. k.type) (stamp-content wall old d) ∙ degraded-type node degraded now)
          (ap (λ k. k.status) (stamp-content wall old d)
            ∙ degraded-status node degraded now
            ∙ rw h))

  unavailable_blocks :
      unavailable ≡ true → upd ≡ false → estimate_from_phase phase conditions ≡ none
  unfolding determine_available
  unavailable_blocks h k =
      blocked phase conditions available_type (determine_available lns true now)
        (result_available api wall pool node upd updd unavailable degraded lns existing now
          ∙ rw (h, k))
        (blocks_unavailable (determine_available lns true now) refl refl)

-- The insight of an evaluated node has no estimate if the node is degraded, or if it is unavailable
-- and not being updated.
pub no_estimate_in_trouble :
    (api : ConditionsApi) (group : String) (wall : Time) (node : Node) (pool : MachineConfigPool)
    (version_of : String → Option String) (desired : String) (existing : List Condition)
    (now : Time)
    → ((is_node_degraded node ≡ true)
        ⊎ (((is_unavailable (new_layered_node_state node) pool).1 ≡ true)
            × (evaluate_is_updating node version_of desired ≡ false)))
    → (i : NodeProgressInsightStatus) × (convert_state_to_insight
          (evaluate_node api group wall (some node) (some pool) version_of desired existing now)
        ≡ some i)
      × (i.estimated_to_complete ≡ none)
unfolding evaluate_node evaluate convert_state_to_insight insight_of_state
no_estimate_in_trouble api group wall node pool version_of desired existing now h = (
  insight_of_state (evaluate api group wall node pool version_of desired existing now),
  refl,
  elim h [
    | inl d ↦
        degraded_blocks api wall pool node _ _ (is_unavailable (new_layered_node_state node) pool).1
          (is_node_degraded node) (is_unavailable (new_layered_node_state node) pool).0 existing now
          _ d
    | inr u ↦
        unavailable_blocks api wall pool node (evaluate_is_updating node version_of desired) _
          (is_unavailable (new_layered_node_state node) pool).1 (is_node_degraded node)
          (is_unavailable (new_layered_node_state node) pool).0 existing now _ u.0 u.1
  ],
)
