-- ===== src/Cli/Sorted.antt =====
-- How the command sorts and sums up the operators (cmd/oc-update-status/controlplane.go).
use openshift_update_experie.Prelude.{
  ℕ, suc, ◌+◌, ◌-◌, ◌≤◌, String, ◌≡◌, refl, List, [], ◌∷◌, ◌++◌, Option, none, some, length, subst,
  length-append, arith,
}
use openshift_update_experie.Meta.{Time, Condition, ConditionsApi}
use openshift_update_experie.Api.{
  ClusterVersionProgressInsightStatus, ClusterOperatorProgressInsightStatus, operator_updating_type,
  operator_healthy_type,
}
use openshift_update_experie.Cli.ControlPlane.{
  Operator, Operators, no_operators, SummaryPart, unavailable_part, degraded_part, unknown_part,
  shown_part, status_summary, sort_updating, sort_healthy, sort_operator, sort_operators,
  assess_control_plane_status,
}
use openshift_update_experie.Cli.Picked.{IsSortedAs, sort_operators-Extends}

abbrev by_progress : Operators → ℕ
by_progress o = length o.updated + length o.waiting + length o.updating

abbrev by_health : Operators → ℕ
by_health o = length o.healthy + length o.unavailable + length o.degraded

-- No operator is sorted twice, by its progress or by its health.
abbrev pub IsSorted : ℕ → Operators → Type 0
IsSorted n o = (o.total ≡ n) × (by_progress o ≤ n) × (by_health o ≤ n)

one_more : (xs : List Operator) (x : Operator) → length (xs ++ x ∷ []) ≡ suc (length xs)
one_more xs x = omega (arith, length-append xs (x ∷ []))

-- The switch on the Updating condition puts an operator into at most one list.
updating_once :
    (name : String) (c : Option Condition) (o : Operators)
    → (by_progress (sort_updating name c o) ≤ suc (by_progress o))
      × (by_health (sort_updating name c o) ≡ by_health o)
      × ((sort_updating name c o).total ≡ o.total)
updating_once name none o = (omega arith, refl, refl)
updating_once name (some c) o =
    let op : Operator = record { name = name; condition = c } in
    ground (arith, one_more o.updated op, one_more o.waiting op, one_more o.updating op)

healthy_once :
    (name : String) (c : Option Condition) (o : Operators)
    → (by_health (sort_healthy name c o) ≤ suc (by_health o))
      × (by_progress (sort_healthy name c o) ≡ by_progress o)
      × ((sort_healthy name c o).total ≡ o.total)
healthy_once name none o = (omega arith, refl, refl)
healthy_once name (some c) o =
    let op : Operator = record { name = name; condition = c } in
    ground (arith, one_more o.healthy op, one_more o.unavailable op, one_more o.degraded op)

module _ (api : ConditionsApi) where
  sort_operator-IsSorted :
      (co : ClusterOperatorProgressInsightStatus) (n : ℕ) (o : Operators)
      → IsSorted n o
      → IsSorted (suc n) (sort_operator api co o)
  sort_operator-IsSorted co n o (t, p, h) =
      let counted : Operators = record o { total = suc o.total } in
      let u = api.find_status_condition co.conditions operator_updating_type in
      let first = updating_once co.name u counted in
      let second =
        healthy_once co.name (api.find_status_condition co.conditions operator_healthy_type)
          (sort_updating co.name u counted) in
      (
        omega (arith, t, first, second),
        omega (arith, p, first, second),
        omega (arith, h, first, second),
      )

  sort_operators-IsSorted :
      (cos : List ClusterOperatorProgressInsightStatus) (n : ℕ) (o : Operators)
      → IsSorted n o
      → IsSorted (n + length cos) (sort_operators api cos o)
  unfolding sort_operators
  sort_operators-IsSorted [] n o (t, p, h) = (omega (arith, t), omega (arith, p), omega (arith, h))
  sort_operators-IsSorted (co ∷ cos) n o h =
      subst (λ k. IsSorted k (sort_operators api cos (sort_operator api co o))) (omega arith)
        (sort_operators-IsSorted cos (suc n) (sort_operator api co o)
          (sort_operator-IsSorted co n o h))

-- The number of operators that the parts of a summary count together.
abbrev pub counted : List (SummaryPart × ℕ) → ℕ
counted [] = 0
counted ((part, n) ∷ parts) = n + counted parts

counted-append : (xs ys : List (SummaryPart × ℕ)) → counted (xs ++ ys) ≡ counted xs + counted ys
counted-append [] ys = omega arith
counted-append ((part, n) ∷ xs) ys = omega (arith, counted-append xs ys)

last-counted : (part : SummaryPart) (n : ℕ) → counted (shown_part part n) ≡ n
last-counted part n = ground arith

summary_counts : (o : Operators) (n : ℕ) → IsSorted n o → counted (status_summary o) ≡ n
unfolding status_summary
summary_counts o n (t, p, h) =
    let unknown = o.total - length o.healthy - length o.unavailable - length o.degraded in
    let shown_unavailable = shown_part unavailable_part (length o.unavailable) in
    let shown_degraded = shown_part degraded_part (length o.degraded) in
    let shown_unknown = shown_part unknown_part unknown in
    omega (
      arith,
      t,
      h,
      counted-append (shown_unavailable ++ shown_degraded) shown_unknown,
      counted-append shown_unavailable shown_degraded,
      last-counted unavailable_part (length o.unavailable),
      last-counted degraded_part (length o.degraded),
      last-counted unknown_part unknown,
    )

-- Each of the six lists holds, in the order of the insights, the operators whose condition passes its
-- test: updating those whose Updating condition is true; updated and waiting those where it is false
-- with the reason Updated or Pending; healthy those whose Healthy condition is true; unavailable and
-- degraded those where it is false with that reason. The parts of the summary add up to the number of
-- operators, and the lists updated, waiting and updating are together at most as long.
pub assess_control_plane_status_lem :
    (api : ConditionsApi) (cv : ClusterVersionProgressInsightStatus)
    (cos : List ClusterOperatorProgressInsightStatus) (now : Time)
    → let o = (assess_control_plane_status api cv cos now).operators in
      IsSortedAs api cos o
      × (counted (status_summary o) ≡ length cos)
      × (length o.updated + length o.waiting + length o.updating ≤ length cos)
unfolding assess_control_plane_status
assess_control_plane_status_lem api cv cos now =
    let sorted =
      subst (λ k. IsSorted k (sort_operators api cos no_operators)) (omega arith)
        (sort_operators-IsSorted api cos 0 no_operators (refl, omega arith, omega arith)) in
    (
      sort_operators-Extends api cos no_operators,
      summary_counts (sort_operators api cos no_operators) (length cos) sorted,
      sorted.1,
    )
