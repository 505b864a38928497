-- ===== src/Operators/Settles.antt =====
-- The insight of a cluster operator comes to rest
-- (internal/controller/clusteroperators/impl.go).
use openshift_update_experie.Prelude.{
  String, ◌≡◌, refl, sym, ap, ◌∙◌, ◌⊎◌, inl, inr, Bool, true, false, List, [], Option, none, some,
  eq_iff, all, select, select-all, arith,
}
use openshift_update_experie.Meta.{
  Time, Condition, ConditionStatus, ConditionsApi, condition_true, condition_false,
  condition_unknown, condition_other, stamp,
}
use openshift_update_experie.Meta.Laws.{put, set_status_condition-put}
use openshift_update_experie.Meta.Stamps.{put_both_again}
use openshift_update_experie.Meta.Contents.{all-put, all-select}
use openshift_update_experie.Api.{
  ClusterOperatorProgressInsightStatus, operator_updating_type, operator_healthy_type,
}
use openshift_update_experie.Cluster.{StatusCondition, ClusterOperator, ClusterVersion, found}
use openshift_update_experie.Client.{Answers, finished}
use openshift_update_experie.Operators.Assessment.{
  assess_cluster_operator, operator_updating, operator_health, is_version_updated, last_condition,
  is_managed_condition, not_updated, progressing_message, operator_available, operator_degraded,
  operator_progressing,
}
use openshift_update_experie.Operators.Reconcile.{reconcile_operator}

pub updating_type :
    (b : Bool) (p : Option StatusCondition) → (operator_updating b p).type ≡ operator_updating_type
unfolding operator_updating
updating_type true none = refl
updating_type true (some p) = refl
updating_type false none = refl
updating_type false (some p) = ground arith

pub healthy_type :
    (a d : Option StatusCondition) → (operator_health a d).type ≡ operator_healthy_type
unfolding operator_health
healthy_type none d = refl
healthy_type (some a) none = ground arith
healthy_type (some a) (some d) = ground arith

abbrev zero_time : Condition → Condition
zero_time u = record u { last_transition_time = 0 }

not_updated_zero :
    (s : ConditionStatus) (message : String)
    → zero_time (not_updated s message) ≡ not_updated s message
not_updated_zero condition_true message = refl
not_updated_zero condition_false message = refl
not_updated_zero condition_unknown message = refl
not_updated_zero (condition_other s) message = refl

updating_zero :
    (b : Bool) (p : Option StatusCondition)
    → zero_time (operator_updating b p) ≡ operator_updating b p
unfolding operator_updating
updating_zero true none = refl
updating_zero true (some p) = refl
updating_zero false none = refl
updating_zero false (some p) = not_updated_zero p.status (progressing_message p)

health_zero : (a d : Option StatusCondition) → zero_time (operator_health a d) ≡ operator_health a d
unfolding operator_health
health_zero none d = refl
health_zero (some a) none = ground arith
health_zero (some a) (some d) = ground arith

managed_stamp :
    (wall : Time) (old : Option Condition) (u : Condition)
    → (u.type ≡ operator_updating_type) ⊎ (u.type ≡ operator_healthy_type)
    → is_managed_condition (stamp wall old u) ≡ true
managed_stamp wall none u h =
    ground (arith, eq_iff u.type operator_updating_type, eq_iff u.type operator_healthy_type)
managed_stamp wall (some o) u h =
    ground (arith, eq_iff u.type operator_updating_type, eq_iff u.type operator_healthy_type)

module _ (api : ConditionsApi) (wall later : Time) (operator : ClusterOperator)
    (target : String) where
  abbrev updating : Condition
  updating =
      operator_updating (is_version_updated target operator.versions)
        (last_condition operator_progressing operator.conditions none)

  abbrev health : Condition
  health =
      operator_health (last_condition operator_available operator.conditions none)
        (last_condition operator_degraded operator.conditions none)

  pub conditions_put :
      (w : Time) (existing : List Condition)
      → (assess_cluster_operator api w operator target existing).conditions
        ≡ put w health (put w updating (select is_managed_condition existing))
  unfolding assess_cluster_operator
  conditions_put w existing =
      set_status_condition-put api w
        (api.set_status_condition w (select is_managed_condition existing) updating) health
      ∙ ap (put w health)
          (set_status_condition-put api w (select is_managed_condition existing) updating)

  all_managed :
      (existing : List Condition)
      → all is_managed_condition
          (put wall health (put wall updating (select is_managed_condition existing)))
        ≡ true
  all_managed existing =
      all-put is_managed_condition wall health _
        (λ o. managed_stamp wall o health (inr (healthy_type _ _)))
        (all-put is_managed_condition wall updating _
          (λ o. managed_stamp wall o updating (inl (updating_type _ _)))
          (all-select is_managed_condition existing))

  -- An operator that is assessed again from the conditions of its insight, while it and the target
  -- version are as before, gets the very status that it has, with its times.
  assess_cluster_operator_again :
      (existing : List Condition)
      → assess_cluster_operator api later operator target
          (assess_cluster_operator api wall operator target existing).conditions
        ≡ assess_cluster_operator api wall operator target existing
  unfolding assess_cluster_operator
  assess_cluster_operator_again existing =
      let first = assess_cluster_operator api wall operator target existing in
      let kept = conditions_put wall existing in
      ap (λ cs. record first { conditions = cs })
        (conditions_put later first.conditions
          ∙ ap (λ cs. put later health (put later updating (select is_managed_condition cs))) kept
          ∙ ap (λ cs. put later health (put later updating cs))
              (select-all is_managed_condition
                (put wall health (put wall updating (select is_managed_condition existing)))
                (all_managed existing))
          ∙ put_both_again wall later updating health (select is_managed_condition existing)
              (updating_zero _ _) (health_zero _ _)
              (rw
                (
                  updating_type (is_version_updated target operator.versions)
                      (last_condition operator_progressing operator.conditions none),
                  healthy_type (last_condition operator_available operator.conditions none)
                      (last_condition operator_degraded operator.conditions none),
                )
                refl)
          ∙ sym kept)

  -- Once the insight of an operator is written, reconciling again, however much later, makes no
  -- call while the operator and the target version are as before.
  pub reconcile_operator_settles :
      (same : ClusterOperatorProgressInsightStatus → ClusterOperatorProgressInsightStatus → Bool)
      (cv : ClusterVersion) (existing : List Condition) (answers : Answers)
      → ((s : ClusterOperatorProgressInsightStatus) → same s s ≡ true)
      → cv.desired_version ≡ target
      → reconcile_operator api same later
          (found operator)
          (found (assess_cluster_operator api wall operator target existing))
          (found cv)
          answers
        ≡ ([], finished)
  unfolding reconcile_operator
  reconcile_operator_settles same cv existing answers h e =
      rw
        (
          e,
          assess_cluster_operator_again existing,
          h (assess_cluster_operator api wall operator target existing),
        )
        refl
