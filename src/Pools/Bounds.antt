-- ===== src/Pools/Bounds.antt =====
-- The numbers of a pool's insight (internal/controller/machineconfigpools/assessment.go).
use openshift_update_experie.Prelude.{
  ℕ, ◌+◌, ◌*◌, ◌/◌, ◌%◌, ◌^◌, ◌≤◌, ◌<◌, ◌≡◌, refl, sym, ◌∙◌, subst, inl, inr, ◌↔◌, Bool, true, List,
  [], ◌∷◌, ltb, lt→ltb, leb, length, any, all, count, count-le-length, arith, Bool-cases,
}
use native.Mathlib.Nat.{div-le_of_le-mul, le-div_iff_mul-le, div-eq_of_eq-mul_left}
use openshift_update_experie.Api.{
  nodes_total, nodes_available, nodes_progressing, nodes_outdated, nodes_draining, nodes_excluded,
  nodes_degraded,
}
use openshift_update_experie.NodeState.{
  NodeState, is_completed, is_draining, is_paused, is_applying,
}
use openshift_update_experie.Pools.Assessment.{
  int32, positive, counter, is_available, is_outdated, is_degraded, calculate_node_summaries,
  calculate_pool_completion,
}

int32_small : (n : ℕ) → n < 2 ^ 31 → int32 n ≡ n
int32_small n h = omega arith

counter-count :
    (p : NodeState → Bool) (nodes : List NodeState) (n : ℕ)
    → n + length nodes < 2 ^ 31
    → counter p nodes n ≡ n + count p nodes
unfolding counter
counter-count p [] n h = omega arith
counter-count p (x ∷ xs) n h = elim (Bool-cases (p x)) [
  | inl e ↦
      rw (e, int32_small (n + 1) (omega arith))
        (counter-count p xs (n + 1) (omega arith) ∙ omega arith)
  | inr e ↦ rw e (counter-count p xs n (omega arith))
]

pub nothing_below : 0 < 0 → ⊥
nothing_below h = omega (arith, h)

counted :
    (p : NodeState → Bool) (nodes : List NodeState)
    → length nodes < 2 ^ 31
    → counter p nodes 0 ≡ count p nodes
counted p nodes h = counter-count p nodes 0 (omega (arith, h)) ∙ omega arith

leb_self : (n : ℕ) → leb n n ≡ true
leb_self n = ground arith

at_most_total :
    (p : NodeState → Bool) (nodes : List NodeState) → leb (count p nodes) (length nodes) ≡ true
at_most_total p nodes = ground (arith, count-le-length p nodes)

all_count :
    (p : NodeState → Bool) (nodes : List NodeState)
    → (all p nodes ≡ true) ↔ (count p nodes ≡ length nodes)
all_count p [] = (λ _. refl, λ _. refl)
all_count p (x ∷ xs) = ground (arith, all_count p xs, count-le-length p xs)

any_count : (p : NodeState → Bool) (nodes : List NodeState) → ltb 0 (count p nodes) ≡ any p nodes
any_count p [] = refl
any_count p (x ∷ xs) = ground (arith, any_count p xs)

-- A counter is positive exactly if a node passes its test.
pub positive-counter :
    (p : NodeState → Bool) (nodes : List NodeState)
    → length nodes < 2 ^ 31
    → positive (counter p nodes 0) ≡ any p nodes
positive-counter p nodes h =
    let c_le = count-le-length p nodes in
    rw (counter-count p nodes 0 (omega (arith, h)))
      (ground (arith, any_count p nodes, lt→ltb (count p nodes) (2 ^ 31) (omega (arith, c_le, h))))

pub percentage_le : (c n : ℕ) → c ≤ n → c * 100 / n ≤ 100
percentage_le c n h = div-le_of_le-mul n (omega arith)

percentage_full : (c n : ℕ) → c ≤ n → 0 < n → (c * 100 / n ≡ 100) ↔ (c ≡ n)
percentage_full c n h k = (
  λ e.
      let low = (le-div_iff_mul-le {x = 100} {y = c * 100} k).0 (omega (arith, e)) in
      omega (arith, low),
  λ e. rw e (div-eq_of_eq-mul_left k (omega arith)),
)

pub completion_value :
    (nodes : List NodeState)
    → length nodes < 2 ^ 31
    → 0 < length nodes
    → calculate_pool_completion nodes ≡ count (λ n. is_completed n.phase) nodes * 100 / length nodes
unfolding calculate_pool_completion
completion_value [] h k = omega (arith, k)
completion_value (x ∷ xs) h k =
    let c = count (λ n. is_completed n.phase) (x ∷ xs) in
    let c_le = count-le-length (λ n. is_completed n.phase) (x ∷ xs) in
    let unwrapped : c * 100 % 2 ^ 64 ≡ c * 100 = omega (arith, c_le, h) in
    let bounded = percentage_le c (length (x ∷ xs)) c_le in
    rw unwrapped (int32_small (c * 100 / length (x ∷ xs)) (omega (arith, bounded)))

-- The completion of a pool of fewer than 2 ^ 31 nodes is the share of its nodes that are completed,
-- in percent and rounded down: it is at most 100, and 100 exactly if every node is completed. An empty
-- pool has 0.
pub pool_completion_lem :
    (nodes : List NodeState)
    → length nodes < 2 ^ 31
    → (calculate_pool_completion nodes ≤ 100)
      × (0 < length nodes
          → calculate_pool_completion nodes
            ≡ count (λ n. is_completed n.phase) nodes * 100 / length nodes)
      × (0 < length nodes
          → (calculate_pool_completion nodes ≡ 100)
            ↔ (all (λ n. is_completed n.phase) nodes ≡ true))
      × (calculate_pool_completion [] ≡ 0)
unfolding calculate_pool_completion
pool_completion_lem [] h =
    (omega arith, λ k. absurd (nothing_below k), λ k. absurd (nothing_below k), refl)
pool_completion_lem (x ∷ xs) h =
    let nodes = x ∷ xs in
    let done = count (λ n. is_completed n.phase) nodes in
    let done_le = count-le-length (λ n. is_completed n.phase) nodes in
    let value = completion_value nodes h (omega arith) in
    let full = percentage_full done (length nodes) done_le (omega arith) in
    let every = all_count (λ n. is_completed n.phase) nodes in
    (
      subst (λ v. v ≤ 100) (sym value) (percentage_le done (length nodes) done_le),
      λ k. value,
      λ k. (λ e. every.1 (full.0 (sym value ∙ e)), λ a. value ∙ full.1 (every.0 a)),
      refl,
    )

-- The summaries hold, in this order, the numbers of all nodes and of those that are available,
-- progressing, outdated, draining, excluded and degraded, and none exceeds the total.
calculate_node_summaries_lem :
    (nodes : List NodeState)
    → length nodes < 2 ^ 31
    → (calculate_node_summaries nodes
        ≡ record { type = nodes_total; count = length nodes }
          ∷ record { type = nodes_available; count = count is_available nodes }
          ∷ record { type = nodes_progressing; count = count (λ n. is_applying n.phase) nodes }
          ∷ record { type = nodes_outdated; count = count is_outdated nodes }
          ∷ record { type = nodes_draining; count = count (λ n. is_draining n.phase) nodes }
          ∷ record { type = nodes_excluded; count = count (λ n. is_paused n.phase) nodes }
          ∷ record { type = nodes_degraded; count = count is_degraded nodes }
          ∷ [])
      × (all (λ s. leb s.count (length nodes)) (calculate_node_summaries nodes) ≡ true)
unfolding calculate_node_summaries
calculate_node_summaries_lem nodes h =
    let totals = int32_small (length nodes) h in
    (
      rw
          (
            totals,
            counted is_available nodes h,
            counted (λ n. is_applying n.phase) nodes h,
            counted is_outdated nodes h,
            counted (λ n. is_draining n.phase) nodes h,
            counted (λ n. is_paused n.phase) nodes h,
            counted is_degraded nodes h,
          )
          refl,
      rw
          (
            totals,
            counted is_available nodes h,
            counted (λ n. is_applying n.phase) nodes h,
            counted is_outdated nodes h,
            counted (λ n. is_draining n.phase) nodes h,
            counted (λ n. is_paused n.phase) nodes h,
            counted is_degraded nodes h,
            at_most_total is_available nodes,
            at_most_total (λ n. is_applying n.phase) nodes,
            at_most_total is_outdated nodes,
            at_most_total (λ n. is_draining n.phase) nodes,
            at_most_total (λ n. is_paused n.phase) nodes,
            at_most_total is_degraded nodes,
            leb_self (length nodes),
          )
          refl,
    )
