-- ===== src/Cli/Listed.antt =====
-- Which operators the command lists as updating (cmd/oc-update-status/controlplane.go and
-- internal/controller/clusteroperators/impl.go).
use openshift_update_experie.Prelude.{
  Bool, Bool-cases, inl, inr, ◌&&◌, sym, ◌∙◌, ap, not, select, map, String, ◌≡◌, ◌↔◌, refl, true,
  false, List, [], ◌∷◌, none, some, arith,
}
use openshift_update_experie.Meta.{
  Time, Condition, ConditionStatus, ConditionsApi, condition_true, condition_false,
  condition_unknown, condition_other, status_eq,
}
use openshift_update_experie.Api.{
  ClusterVersionProgressInsightStatus, ClusterOperatorProgressInsightStatus, operator_updating_type,
}
use openshift_update_experie.Cluster.{ClusterOperator}
use openshift_update_experie.Operators.{
  assess_cluster_operator, is_version_updated, last_condition, operator_progressing,
}
use openshift_update_experie.Operators.Verdict.{is_progressing, assess_cluster_operator_updating}
use openshift_update_experie.Cli.ControlPlane.{assess_control_plane_status}
use openshift_update_experie.Cli.Picked.{picked, is_true}
use openshift_update_experie.Cli.Sorted.{assess_control_plane_status_lem}

status_eq-true : (s : ConditionStatus) → (status_eq s condition_true ≡ true) ↔ (s ≡ condition_true)
status_eq-true condition_true = (λ h. refl, λ h. refl)
status_eq-true condition_false = (λ h. cc h, λ h. cc h)
status_eq-true condition_unknown = (λ h. cc h, λ h. cc h)
status_eq-true (condition_other s) = (λ h. cc h, λ h. cc h)

module _ (api : ConditionsApi) (wall later : Time) (target : String)
    (existing : ClusterOperator → List Condition) where
  abbrev assess : ClusterOperator → ClusterOperatorProgressInsightStatus
  assess operator = assess_cluster_operator api wall operator target (existing operator)

  abbrev is_being_updated : ClusterOperator → Bool
  is_being_updated operator =
      not (is_version_updated target operator.versions)
      && is_progressing (last_condition operator_progressing operator.conditions none)

  both : (a b : Bool) → ((a ≡ false) × (b ≡ true)) → (not a && b) ≡ true
  both a b (h, k) = rw (h, k) refl

  either : (a b : Bool) → (not a && b) ≡ true → (a ≡ false) × (b ≡ true)
  either a b h = ground arith

  updating_test :
      (operator : ClusterOperator)
      → (c : Condition) × (api.find_status_condition
            (assess operator).conditions
            operator_updating_type
          ≡ some c)
        × (is_true c ≡ is_being_updated operator)
  updating_test operator =
      let (c, there, a, b, r) =
        assess_cluster_operator_updating api wall later operator target (existing operator) in
      let test = status_eq-true c.status in
      (
        c,
        there,
        elim (Bool-cases (is_being_updated operator)) [
          | inl e ↦ test.1 (b.1 (either _ _ e)) ∙ sym e
          | inr e ↦ elim (Bool-cases (is_true c)) [
            | inl t ↦ t ∙ sym (both _ _ (b.0 (test.0 t)))
            | inr t ↦ t ∙ sym e
          ]
        ],
      )

  named :
      (operators : List ClusterOperator)
      → map (λ o. o.name) (picked api operator_updating_type is_true (map assess operators))
        ≡ map (λ o. o.name) (select is_being_updated operators)
  unfolding assess_cluster_operator
  named [] = refl
  named (operator ∷ operators) =
      let (c, there, test) = updating_test operator in
      elim (Bool-cases (is_being_updated operator)) [
        | inl e ↦ rw (there, test, e) (ap (λ l. operator.name ∷ l) (named operators))
        | inr e ↦ rw (there, test, e) (named operators)
      ]

-- Of the operators that the controller has assessed, the command lists as updating, in their order,
-- exactly those that have not reached the target version and whose last Progressing condition is true.
pub lists_updating :
    (api : ConditionsApi) (wall later now : Time) (cv : ClusterVersionProgressInsightStatus)
    (operators : List ClusterOperator) (target : String)
    (existing : ClusterOperator → List Condition)
    → let cos = map (λ o. assess_cluster_operator api wall o target (existing o)) operators in
      map (λ o. o.name) (assess_control_plane_status api cv cos now).operators.updating
      ≡ map
          (λ o. o.name)
          (select
            (λ o.
              not (is_version_updated target o.versions)
              && is_progressing (last_condition operator_progressing o.conditions none))
            operators)
lists_updating api wall later now cv operators target existing =
    let cos = map (λ o. assess_cluster_operator api wall o target (existing o)) operators in
    ap (map (λ o. o.name)) (assess_control_plane_status_lem api cv cos now).0.0
    ∙ named api wall later target existing operators
