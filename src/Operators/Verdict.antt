-- ===== src/Operators/Verdict.antt =====
-- What is said of a cluster operator (internal/controller/clusteroperators/impl.go).
use openshift_update_experie.Prelude.{
  String, ◌≡◌, refl, sym, ap, ◌∙◌, subst, ◌↔◌, Bool, true, false, List, Option, none, some, ◌==◌,
  select,
}
use openshift_update_experie.Meta.{
  Time, Condition, ConditionStatus, ConditionsApi, condition_true, condition_false,
  condition_unknown, condition_other, status_eq, stamp,
}
use openshift_update_experie.Meta.Laws.{
  condition_of, put, find_status_condition-condition_of, condition_of-put,
}
use openshift_update_experie.Api.{
  operator_updating_type, operator_reason_updated, operator_reason_progressing,
}
use openshift_update_experie.Cluster.{StatusCondition, ClusterOperator}
use openshift_update_experie.Operators.Assessment.{
  assess_cluster_operator, operator_updating, operator_health, is_version_updated, last_condition,
  is_managed_condition, not_updated, progressing_message, operator_available, operator_degraded,
  operator_progressing,
}
use openshift_update_experie.Operators.Settles.{updating_type, healthy_type, conditions_put}

abbrev pub is_progressing : Option StatusCondition → Bool
is_progressing none = false
is_progressing (some p) = status_eq p.status condition_true

stamp-reason :
    (wall : Time) (old : Option Condition) (u : Condition) → (stamp wall old u).reason ≡ u.reason
stamp-reason wall none u = refl
stamp-reason wall (some o) u = refl

stamp-status :
    (wall : Time) (old : Option Condition) (u : Condition) → (stamp wall old u).status ≡ u.status
stamp-status wall none u = refl
stamp-status wall (some o) u = refl

abbrev Verdict : Bool → Bool → Condition → Type 0
Verdict updated progressing c =
    ((c.reason ≡ operator_reason_updated) ↔ (updated ≡ true))
    × ((c.status ≡ condition_true) ↔ ((updated ≡ false) × (progressing ≡ true)))
    × (c.status ≡ condition_true → c.reason ≡ operator_reason_progressing)

not_updated-Verdict :
    (s : ConditionStatus) (message : String)
    → Verdict false (status_eq s condition_true) (not_updated s message)
not_updated-Verdict condition_true message = (
  (λ e. ap (λ r. r == operator_reason_updated) e, λ e. cc e),
  (λ e. (refl, refl), λ e. refl),
  λ e. refl,
)
not_updated-Verdict condition_false message = (
  (λ e. ap (λ r. r == operator_reason_updated) e, λ e. cc e),
  (λ e. cc e, λ e. cc e.1),
  λ e. cc e,
)
not_updated-Verdict condition_unknown message = (
  (λ e. ap (λ r. r == operator_reason_updated) e, λ e. cc e),
  (λ e. cc e, λ e. cc e.1),
  λ e. cc e,
)
not_updated-Verdict (condition_other s) message = (
  (λ e. ap (λ r. r == operator_reason_updated) e, λ e. cc e),
  (λ e. cc e, λ e. cc e.1),
  λ e. cc e,
)

updating-Verdict :
    (updated : Bool) (p : Option StatusCondition)
    → Verdict updated (is_progressing p) (operator_updating updated p)
unfolding operator_updating
updating-Verdict true none = ((λ e. refl, λ e. refl), (λ e. cc e, λ e. cc e.0), λ e. cc e)
updating-Verdict true (some p) = ((λ e. refl, λ e. refl), (λ e. cc e, λ e. cc e.0), λ e. cc e)
updating-Verdict false none = (
  (λ e. ap (λ r. r == operator_reason_updated) e, λ e. cc e),
  (λ e. cc e, λ e. cc e.1),
  λ e. cc e,
)
updating-Verdict false (some p) = not_updated-Verdict p.status (progressing_message p)

module _ (api : ConditionsApi) (wall later : Time) (operator : ClusterOperator)
    (target : String) where
  abbrev updating : Condition
  updating =
      operator_updating (is_version_updated target operator.versions)
        (last_condition operator_progressing operator.conditions none)

  abbrev health : Condition
  health =
      operator_health (last_condition operator_available operator.conditions none)
        (last_condition operator_degraded operator.conditions none)

  abbrev is_updated : Bool
  is_updated = is_version_updated target operator.versions

  abbrev progressing : Option StatusCondition
  progressing = last_condition operator_progressing operator.conditions none

  found_updating :
      (existing : List Condition)
      → api.find_status_condition
          (assess_cluster_operator api wall operator target existing).conditions
          operator_updating_type
        ≡ some (
            stamp wall
              (condition_of operator_updating_type (select is_managed_condition existing))
              updating)
  found_updating existing =
      let cs = select is_managed_condition existing in
      find_status_condition-condition_of api
        (assess_cluster_operator api wall operator target existing).conditions
        operator_updating_type
      ∙ ap (condition_of operator_updating_type)
          (conditions_put api wall later operator target wall existing)
      ∙ condition_of-put wall health operator_updating_type (put wall updating cs)
      ∙ rw
          (healthy_type (last_condition operator_available operator.conditions none)
            (last_condition operator_degraded operator.conditions none))
          (condition_of-put wall updating operator_updating_type cs
            ∙ rw (updating_type is_updated progressing) refl)

  -- The Updating condition of the insight has the reason Updated exactly if the operator reports
  -- the target version; its status is true exactly if the operator does not and its last Progressing
  -- condition is true, and then it has the reason Progressing.
  pub assess_cluster_operator_updating :
      (existing : List Condition)
      → (c : Condition) × (api.find_status_condition
            (assess_cluster_operator api wall operator target existing).conditions
            operator_updating_type
          ≡ some c)
        × ((c.reason ≡ operator_reason_updated) ↔ (is_updated ≡ true))
        × ((c.status ≡ condition_true)
            ↔ ((is_updated ≡ false) × (is_progressing progressing ≡ true)))
        × (c.status ≡ condition_true → c.reason ≡ operator_reason_progressing)
  assess_cluster_operator_updating existing =
      let old = condition_of operator_updating_type (select is_managed_condition existing) in
      let (a, b, r) = updating-Verdict is_updated progressing in
      (
        stamp wall old updating,
        found_updating existing,
        subst (λ w. (w ≡ operator_reason_updated) ↔ (is_updated ≡ true))
            (sym (stamp-reason wall old updating)) a,
        subst
            (λ w.
              (w ≡ condition_true) ↔ ((is_updated ≡ false) × (is_progressing progressing ≡ true)))
            (sym (stamp-status wall old updating)) b,
        λ h. stamp-reason wall old updating ∙ r (sym (stamp-status wall old updating) ∙ h),
      )
