-- ===== src/Pools/Verdict.antt =====
-- The verdict on a pool (internal/controller/machineconfigpools/assessment.go).
use openshift_update_experie.Prelude.{
  ◌^◌, ◌<◌, ◌≡◌, refl, ◌∙◌, Bool, true, false, not, ◌&&◌, ◌||◌, List, [], ◌∷◌, if◌then◌else◌,
  length, any, all, arith,
}
use openshift_update_experie.Meta.{Time, condition_true, condition_false}
use openshift_update_experie.Api.{
  NodeSummary, nodes_progressing, nodes_outdated, nodes_degraded, PoolAssessment, pool_pending,
  pool_completed, pool_degraded, pool_excluded, pool_progressing,
}
use openshift_update_experie.NodeState.{NodeState, is_completed, is_applying}
use openshift_update_experie.Pools.Assessment.{
  positive, counter, is_outdated, is_degraded, is_active, calculate_node_summaries,
  calculate_pool_assessment, last_count, first_count, pool_updating, pool_healthy,
}
use openshift_update_experie.Pools.Bounds.{positive-counter, nothing_below}

-- The verdict, from the nodes alone: the causes in the order of their priority.
abbrev pub assessment_of : Bool → List NodeState → PoolAssessment
assessment_of paused nodes =
    if any is_degraded nodes
    then pool_degraded
    else if paused && any is_outdated nodes
    then pool_excluded
    else if any is_active nodes
    then pool_progressing
    else if all (λ n. is_completed n.phase) nodes
    then pool_completed
    else pool_pending

last_degraded :
    (nodes : List NodeState)
    → last_count nodes_degraded (calculate_node_summaries nodes) 0 ≡ counter is_degraded nodes 0
unfolding last_count calculate_node_summaries
last_degraded nodes = refl

last_outdated :
    (nodes : List NodeState)
    → last_count nodes_outdated (calculate_node_summaries nodes) 0 ≡ counter is_outdated nodes 0
unfolding last_count calculate_node_summaries
last_outdated nodes = refl

-- The assessment of a pool with nodes, fewer than 2 ^ 31, is the first that applies of: degraded if a node is;
-- excluded if the pool is paused and a node is outdated; progressing if a node is being drained,
-- updated or rebooted; completed if every node is; pending. A pool without nodes is pending.
pub calculate_pool_assessment_lem :
    (paused : Bool) (nodes : List NodeState)
    → length nodes < 2 ^ 31
    → (0 < length nodes
        → calculate_pool_assessment paused nodes (calculate_node_summaries nodes)
          ≡ assessment_of paused nodes)
      × (calculate_pool_assessment paused [] (calculate_node_summaries []) ≡ pool_pending)
unfolding calculate_pool_assessment
calculate_pool_assessment_lem paused [] h = (λ k. absurd (nothing_below k), refl)
calculate_pool_assessment_lem paused (x ∷ xs) h =
    let nodes = x ∷ xs in
    (
      λ k.
          rw
            (
              last_degraded nodes,
              last_outdated nodes,
              positive-counter is_degraded nodes h,
              positive-counter is_outdated nodes h,
            )
            refl,
      refl,
    )

first_degraded :
    (nodes : List NodeState)
    → first_count nodes_degraded (calculate_node_summaries nodes) ≡ counter is_degraded nodes 0
unfolding first_count calculate_node_summaries
first_degraded nodes = refl

first_progressing :
    (nodes : List NodeState)
    → first_count nodes_progressing (calculate_node_summaries nodes)
      ≡ counter (λ n. is_applying n.phase) nodes 0
unfolding first_count calculate_node_summaries
first_progressing nodes = refl

abbrev is_progressing : PoolAssessment → Bool
is_progressing pool_progressing = true
is_progressing _ = false

abbrev is_degraded_pool : PoolAssessment → Bool
is_degraded_pool pool_degraded = true
is_degraded_pool _ = false

-- The assessment that the five causes give, as `assessment_of` takes them.
abbrev verdict : Bool → Bool → Bool → Bool → PoolAssessment
verdict degraded excluded active completed =
    if degraded
    then pool_degraded
    else if excluded
    then pool_excluded
    else if active
    then pool_progressing
    else if completed
    then pool_completed
    else pool_pending

updating_cases :
    (degraded excluded active completed applying : Bool)
    → (if is_progressing (verdict degraded excluded active completed)
          || (is_degraded_pool (verdict degraded excluded active completed) && applying)
        then condition_true
        else condition_false)
      ≡ (if degraded
          then (if applying then condition_true else condition_false)
          else (if not excluded && active then condition_true else condition_false))
updating_cases true excluded active completed applying = refl
updating_cases false true active completed applying = refl
updating_cases false false true completed applying = refl
updating_cases false false false true applying = refl
updating_cases false false false false applying = refl

updating_status :
    (a : PoolAssessment) (s : List NodeSummary) (now : Time)
    → (pool_updating a s now).status ≡ (
        if is_progressing a || (is_degraded_pool a && positive (first_count nodes_progressing s))
        then condition_true
        else condition_false)
unfolding pool_updating
updating_status pool_pending s now = refl
updating_status pool_completed s now = refl
updating_status pool_degraded s now = ground arith
updating_status pool_excluded s now = refl
updating_status pool_progressing s now = refl

healthy_status :
    (a : PoolAssessment) (s : List NodeSummary) (now : Time)
    → (pool_healthy a s now).status
      ≡ (if positive (first_count nodes_degraded s) then condition_false else condition_true)
unfolding pool_healthy
healthy_status a s now = ground arith

idle : (b : Bool) → condition_false ≡ (if not b && false then condition_true else condition_false)
idle true = refl
idle false = refl

-- Of a pool with fewer than 2 ^ 31 nodes, also of an empty one: it is unhealthy exactly if a node of
-- it is degraded. If a node is degraded, it is updating exactly if some node is being updated or
-- rebooted, and draining nodes do not count; otherwise it is updating exactly if some node is being
-- drained, updated or rebooted, unless the pool is paused with an outdated node.
pub pool_conditions_lem :
    (paused : Bool) (nodes : List NodeState) (now : Time)
    → length nodes < 2 ^ 31
    → ((pool_healthy
          (calculate_pool_assessment paused nodes (calculate_node_summaries nodes))
          (calculate_node_summaries nodes)
          now).status
        ≡ (if any is_degraded nodes then condition_false else condition_true))
      × ((pool_updating
            (calculate_pool_assessment paused nodes (calculate_node_summaries nodes))
            (calculate_node_summaries nodes)
            now).status
          ≡ (if any is_degraded nodes
              then (if any (λ n. is_applying n.phase) nodes
                  then condition_true
                  else condition_false)
              else (if not (paused && any is_outdated nodes) && any is_active nodes
                  then condition_true
                  else condition_false)))
pool_conditions_lem paused [] now h =
    let summaries = calculate_node_summaries [] in
    (
      healthy_status _ summaries now
          ∙ rw (first_degraded [], positive-counter is_degraded [] h) refl,
      updating_status _ summaries now
          ∙ rw
              (
                first_progressing [],
                positive-counter (λ n. is_applying n.phase) [] h,
                (calculate_pool_assessment_lem paused [] h).1,
              )
              (idle (paused && false)),
    )
pool_conditions_lem paused (x ∷ xs) now h =
    let nodes = x ∷ xs in
    let summaries = calculate_node_summaries nodes in
    (
      healthy_status _ summaries now
          ∙ rw (first_degraded nodes, positive-counter is_degraded nodes h) refl,
      updating_status _ summaries now
          ∙ rw
              (
                first_progressing nodes,
                positive-counter (λ n. is_applying n.phase) nodes h,
                (calculate_pool_assessment_lem paused nodes h).0 (omega arith),
              )
              (updating_cases (any is_degraded nodes) (paused && any is_outdated nodes)
                (any is_active nodes) (all (λ n. is_completed n.phase) nodes)
                (any (λ n. is_applying n.phase) nodes)),
    )
