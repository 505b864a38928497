-- ===== src/Cli/Completion.antt =====
-- The completion column of the command's table of pools, against the controller's own count
-- (cmd/oc-update-status/workerpools.go and internal/controller/machineconfigpools/assessment.go).
use openshift_update_experie.Prelude.{
  ℕ, ◌*◌, ◌/◌, ◌^◌, ◌≤◌, ◌<◌, String, ◌≡◌, refl, ◌↔◌, Bool, true, List, Option, length, count,
  count-le-length, if◌then◌else◌, lt→ltb, arith,
}
use native.Mathlib.Nat.{
  div-le_of_le-mul, le-div_iff_mul-le, div-mul-le_self, mul-le-mul_right, mod-eq_of_lt,
}
use openshift_update_experie.Meta.{Time, ConditionsApi}
use openshift_update_experie.Api.{ScopeType, MachineConfigPoolProgressInsightStatus, nodes_total}
use openshift_update_experie.NodeState.{NodeState, is_completed}
use openshift_update_experie.Pools.{
  assess_pool_from_node_states, first_count, calculate_node_summaries, positive, int32,
}
use openshift_update_experie.Pools.Bounds.{completion_value, percentage_le}
use openshift_update_experie.Cli.Pools.{format_pool_completion, hundredth}

total_of :
    (nodes : List NodeState)
    → length nodes < 2 ^ 31
    → first_count nodes_total (calculate_node_summaries nodes) ≡ length nodes
unfolding first_count calculate_node_summaries
total_of nodes h = omega (arith, h)

-- The number of updated nodes, from the percentage.
shown_le : (c n : ℕ) → c * 100 / n * n / 100 ≤ c
shown_le c n = div-le_of_le-mul 100 (omega (arith, div-mul-le_self (c * 100) n))

shown_exact : (c n : ℕ) → (c * 100 / n * n / 100 ≡ c) ↔ (c * 100 / n * n ≡ c * 100)
shown_exact c n = (
  λ e.
      let low =
        (le-div_iff_mul-le {k = 100} {x = c} {y = c * 100 / n * n} (omega arith)).0
          (omega (arith, e)) in
      omega (arith, low, div-mul-le_self (c * 100) n),
  λ e. rw e (omega arith),
)

is_positive : (n : ℕ) → n < 2 ^ 24 → 0 < n → positive n ≡ true
is_positive n h k = ground (arith, lt→ltb 0 n k, lt→ltb n (2 ^ 31) (omega (arith, h)))

product_small : (v n : ℕ) → v ≤ 100 → n < 2 ^ 24 → v * n < 2 ^ 31
product_small v n h k =
    let scaled : v * n ≤ 100 * n = mul-le-mul_right n h in omega (arith, scaled, k)

unwrapped : (v n : ℕ) → v * n < 2 ^ 31 → int32 (v * n) ≡ v * n
unwrapped v n h = mod-eq_of_lt (omega (arith, h))

updated_column :
    (v n : ℕ)
    → v ≤ 100
    → n < 2 ^ 24
    → 0 < n
    → (if positive n then hundredth (int32 (v * n)) else 0) ≡ v * n / 100
updated_column v n h k l =
    let small = product_small v n h k in
    rw (is_positive n k l, unwrapped v n small, lt→ltb (v * n) (2 ^ 31) small) refl

-- For a pool that the controller assessed, the completion column shows the percentage, the total, and
-- as the number of updated nodes at most the number of completed ones; it is that number exactly if
-- the percentage was exact. So it can be too small: of three nodes with one completed it shows none.
-- (The pool has fewer than 2 ^ 24 nodes, and at least one.)
pub format_pool_completion_lem :
    (api : ConditionsApi) (wall now : Time) (name : String) (scope : ScopeType) (paused : Bool)
    (nodes : List NodeState) (previous : Option MachineConfigPoolProgressInsightStatus)
    → length nodes < 2 ^ 24
    → 0 < length nodes
    → let done = count (λ n. is_completed n.phase) nodes in
      let shown =
        format_pool_completion
          (assess_pool_from_node_states api wall name scope paused nodes previous now) in
      (shown.0 ≡ done * 100 / length nodes)
      × (shown.2 ≡ length nodes)
      × (shown.1 ≤ done)
      × ((shown.1 ≡ done) ↔ (done * 100 / length nodes * length nodes ≡ done * 100))
unfolding format_pool_completion assess_pool_from_node_states
format_pool_completion_lem api wall now name scope paused nodes previous h k =
    let n = length nodes in
    let done = count (λ x. is_completed x.phase) nodes in
    let value = completion_value nodes (omega (arith, h)) k in
    let total = total_of nodes (omega (arith, h)) in
    let bounded = percentage_le done n (count-le-length (λ x. is_completed x.phase) nodes) in
    let column = updated_column (done * 100 / n) n bounded h k in
    rw (value, total, column) (refl, refl, shown_le done n, shown_exact done n)
