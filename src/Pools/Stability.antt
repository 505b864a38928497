-- ===== src/Pools/Stability.antt =====
-- The conditions of a pool's insight over several reconciliations
-- (internal/controller/machineconfigpools).
use openshift_update_experie.Prelude.{
  String, ◌≡◌, refl, sym, ap, ◌∙◌, Bool, false, List, [], ◌∷◌, ◌++◌, Option, none, some, ◌==◌,
  eq_refl, arith, as_list,
}
use openshift_update_experie.Meta.{Time, Condition, ConditionsApi, stamp}
use openshift_update_experie.Meta.Laws.{
  condition_of, set_status_condition-put, find_status_condition-condition_of,
}
use openshift_update_experie.Meta.Stamps.{
  condition_of-type, set_first, stamp_again, put_alone, put_after, put_over,
}
use openshift_update_experie.Api.{
  pool_pending, pool_completed, pool_degraded, pool_excluded, pool_progressing, ScopeType,
  NodeSummary, PoolAssessment, MachineConfigPoolProgressInsightStatus, pool_updating_type,
  pool_healthy_type,
}
use openshift_update_experie.NodeState.{NodeState}
use openshift_update_experie.Pools.Assessment.{
  assess_pool_from_node_states, preserve_conditions, previous_condition, determine_pool_conditions,
  pool_updating, pool_healthy, calculate_node_summaries, calculate_pool_assessment,
}

updating_type :
    (a : PoolAssessment) (s : List NodeSummary) (now : Time)
    → (pool_updating a s now).type ≡ pool_updating_type
unfolding pool_updating
updating_type pool_pending s now = refl
updating_type pool_completed s now = refl
updating_type pool_degraded s now = ground arith
updating_type pool_excluded s now = refl
updating_type pool_progressing s now = refl

healthy_type :
    (a : PoolAssessment) (s : List NodeSummary) (now : Time)
    → (pool_healthy a s now).type ≡ pool_healthy_type
unfolding pool_healthy
healthy_type a s now = ground arith

updating_at :
    (a : PoolAssessment) (s : List NodeSummary) (now later : Time)
    → pool_updating a s later ≡ record (pool_updating a s now) { last_transition_time = later }
unfolding pool_updating
updating_at pool_pending s now later = refl
updating_at pool_completed s now later = refl
updating_at pool_degraded s now later = ground arith
updating_at pool_excluded s now later = refl
updating_at pool_progressing s now later = refl

healthy_at :
    (a : PoolAssessment) (s : List NodeSummary) (now later : Time)
    → pool_healthy a s later ≡ record (pool_healthy a s now) { last_transition_time = later }
unfolding pool_healthy
healthy_at a s now later = ground arith

types_differ :
    (a : PoolAssessment) (s : List NodeSummary) (now : Time)
    → ((pool_updating a s now).type == (pool_healthy a s now).type) ≡ false
types_differ a s now = rw (updating_type a s now, healthy_type a s now) refl

stamped_type :
    (wall : Time) (old : Option Condition) (u v : Condition)
    → (u.type == v.type) ≡ false
    → ((stamp wall old u).type == v.type) ≡ false
stamped_type wall none u v d = d
stamped_type wall (some o) u v d = d

first_of :
    (wall : Time) (old older : Option Condition) (u v : Condition)
    → condition_of u.type (stamp wall old u ∷ stamp wall older v ∷ []) ≡ some (stamp wall old u)
unfolding condition_of
first_of wall none older u v = rw (eq_refl u.type) refl
first_of wall (some o) older u v = rw (eq_refl u.type) refl

second_of :
    (wall : Time) (old older : Option Condition) (u v : Condition)
    → (u.type == v.type) ≡ false
    → condition_of v.type (stamp wall old u ∷ stamp wall older v ∷ []) ≡ some (stamp wall older v)
unfolding condition_of
second_of wall none none u v d = rw (d, eq_refl v.type) refl
second_of wall none (some o) u v d = rw (d, eq_refl v.type) refl
second_of wall (some p) none u v d = rw (d, eq_refl v.type) refl
second_of wall (some p) (some o) u v d = rw (d, eq_refl v.type) refl

module _ (api : ConditionsApi) where
  set_second :
      (wall : Time) (x : Condition) (old : Option Condition) (u : Condition)
      → (x.type == u.type) ≡ false
      → ((c : Condition) → old ≡ some c → c.type ≡ u.type)
      → api.set_status_condition wall (x ∷ as_list old) u ≡ x ∷ stamp wall old u ∷ []
  set_second wall x none u d h =
      set_status_condition-put api wall (x ∷ []) u
      ∙ put_after wall x u [] d
      ∙ ap (λ l. x ∷ l) (put_alone wall u)
  set_second wall x (some c) u d h =
      set_status_condition-put api wall (x ∷ c ∷ []) u
      ∙ put_after wall x u (c ∷ []) d
      ∙ ap (λ l. x ∷ l) (put_over wall c u [] (h c refl))

  previous_type :
      (previous : Option MachineConfigPoolProgressInsightStatus) (t : String) (c : Condition)
      → previous_condition api previous t ≡ some c
      → c.type ≡ t
  previous_type none t c h = cc
  previous_type (some status) t c h =
      condition_of-type t status.conditions c
        (sym (find_status_condition-condition_of api status.conditions t) ∙ h)

  -- Two new conditions of different types take the place of all the old ones.
  preserved :
      (wall : Time) (previous : Option MachineConfigPoolProgressInsightStatus) (u v : Condition)
      → (u.type == v.type) ≡ false
      → preserve_conditions api wall previous [] (u ∷ v ∷ [])
        ≡ stamp wall (previous_condition api previous u.type) u
          ∷ stamp wall (previous_condition api previous v.type) v
          ∷ []
  unfolding preserve_conditions
  preserved wall previous u v d =
      ap
        (λ l.
          api.set_status_condition wall (l ++ as_list (previous_condition api previous v.type)) v)
        (set_first api wall (previous_condition api previous u.type) u
          (previous_type previous u.type))
      ∙ set_second wall (stamp wall (previous_condition api previous u.type) u)
          (previous_condition api previous v.type) v
          (stamped_type wall (previous_condition api previous u.type) u v d)
          (previous_type previous v.type)

  -- The same two conditions put again, later.
  preserved_again :
      (wall later now : Time) (status : MachineConfigPoolProgressInsightStatus)
      (old older : Option Condition) (u v : Condition)
      → (u.type == v.type) ≡ false
      → status.conditions ≡ stamp wall old u ∷ stamp wall older v ∷ []
      → preserve_conditions api later
          (some status)
          []
          (record u { last_transition_time = now } ∷ record v { last_transition_time = now } ∷ [])
        ≡ status.conditions
  preserved_again wall later now status old older u v d e =
      let found : previous_condition api (some status) u.type ≡ some (stamp wall old u) =
        find_status_condition-condition_of api status.conditions u.type
        ∙ ap (condition_of u.type) e
        ∙ first_of wall old older u v in
      let found_second : previous_condition api (some status) v.type ≡ some (stamp wall older v) =
        find_status_condition-condition_of api status.conditions v.type
        ∙ ap (condition_of v.type) e
        ∙ second_of wall old older u v d in
      preserved later (some status) (record u { last_transition_time = now })
        (record v { last_transition_time = now }) d
      ∙ ap
          (λ o.
            stamp later o (record u { last_transition_time = now })
            ∷ stamp later (previous_condition api (some status) v.type)
                (record v { last_transition_time = now })
            ∷ [])
          found
      ∙ ap
          (λ o.
            stamp later (some (stamp wall old u)) (record u { last_transition_time = now })
            ∷ stamp later o (record v { last_transition_time = now })
            ∷ [])
          found_second
      ∙ ap
          (λ c.
            c
            ∷ stamp later (some (stamp wall older v)) (record v { last_transition_time = now })
            ∷ [])
          (stamp_again wall later now old u)
      ∙ ap (λ c. stamp wall old u ∷ c ∷ []) (stamp_again wall later now older v)
      ∙ sym e

  -- A pool that is assessed again while its nodes and its pause are as before gets the very status
  -- that it has, with the times of its conditions, however much later that is.
  pub assess_pool_again :
      (wall later now at_last : Time) (name : String) (scope : ScopeType) (paused : Bool)
      (nodes : List NodeState) (previous : Option MachineConfigPoolProgressInsightStatus)
      → assess_pool_from_node_states api later name scope paused nodes
          (some (assess_pool_from_node_states api wall name scope paused nodes previous now))
          at_last
        ≡ assess_pool_from_node_states api wall name scope paused nodes previous now
  unfolding assess_pool_from_node_states determine_pool_conditions
  assess_pool_again wall later now at_last name scope paused nodes previous =
      let s = calculate_node_summaries nodes in
      let a = calculate_pool_assessment paused nodes s in
      let status = assess_pool_from_node_states api wall name scope paused nodes previous now in
      let u = pool_updating a s now in
      let v = pool_healthy a s now in
      ap (λ cs. record status { conditions = cs })
        (ap
            (λ c.
              preserve_conditions api later (some status) [] (c ∷ pool_healthy a s at_last ∷ []))
            (updating_at a s now at_last)
          ∙ ap
              (λ c.
                preserve_conditions api later (some status) []
                  (record u { last_transition_time = at_last } ∷ c ∷ []))
              (healthy_at a s now at_last)
          ∙ preserved_again wall later at_last status (previous_condition api previous u.type)
              (previous_condition api previous v.type) u v (types_differ a s now)
              (preserved wall previous u v (types_differ a s now)))
