-- ===== src/Cli/Pools.antt =====
-- cmd/oc-update-status/workerpools.go. Texts of numbers are left out: the functions return the
-- numbers and names that the line is made of. An int32 is kept as its bit pattern.
use openshift_update_experie.Prelude.{
  ℕ, ◌*◌, ◌/◌, String, Bool, true, false, ◌||◌, List, [], ◌∷◌, ◌++◌, if◌then◌else◌, ltb, ◌-◌, ◌^◌,
  ◌==◌,
}
use openshift_update_experie.Meta.{Condition, condition_true, status_eq}
use openshift_update_experie.Api.{
  MachineConfigPoolProgressInsightStatus, NodeSummaryType, nodes_total, nodes_available,
  nodes_progressing, nodes_draining, nodes_excluded, nodes_degraded, pool_updating_type,
  is_control_plane, PoolAssessment,
}
use openshift_update_experie.Pools.{first_count, last_count, positive, int32}

-- `p / 100` on an int32, which truncates towards zero.
abbrev pub hundredth : ℕ → ℕ
hundredth p = if ltb p (2 ^ 31) then p / 100 else int32 (2 ^ 32 - (2 ^ 32 - p) / 100)

-- The three numbers of the completion column: percent, updated nodes, all nodes.
unfoldable pub format_pool_completion : MachineConfigPoolProgressInsightStatus → ℕ × ℕ × ℕ
format_pool_completion status =
    let total = first_count nodes_total status.summaries in
    let updated = if positive total then hundredth (int32 (status.completion * total)) else 0 in
    (status.completion, updated, total)

-- The first condition of the type, whatever its status, decides.
abbrev is_pool_updating : List Condition → Bool
is_pool_updating [] = false
is_pool_updating (c ∷ cs) =
    if c.type == pool_updating_type then status_eq c.status condition_true else is_pool_updating cs

-- One part of the status column: a count and what it counts.
abbrev part : Bool → NodeSummaryType → ℕ → List (NodeSummaryType × ℕ)
part shown t n = if shown then (t, n) ∷ [] else []

unfoldable pub format_pool_status :
    MachineConfigPoolProgressInsightStatus → List (NodeSummaryType × ℕ)
format_pool_status status =
    let n : NodeSummaryType → ℕ = λ t. last_count t status.summaries 0 in
    let updating = is_pool_updating status.conditions in
    part true nodes_available (n nodes_available)
    ++ part (updating || positive (n nodes_progressing)) nodes_progressing (n nodes_progressing)
    ++ part (updating || positive (n nodes_draining)) nodes_draining (n nodes_draining)
    ++ part (positive (n nodes_excluded)) nodes_excluded (n nodes_excluded)
    ++ part (positive (n nodes_degraded)) nodes_degraded (n nodes_degraded)

pub record WorkerPoolDisplayData : Type 0 where
  pub name : String
  pub assessment : PoolAssessment
  pub completion : ℕ × ℕ × ℕ
  pub status : List (NodeSummaryType × ℕ)

abbrev pub display_pool : MachineConfigPoolProgressInsightStatus → WorkerPoolDisplayData
display_pool mcp = record {
  name = mcp.name;
  assessment = mcp.assessment;
  completion = format_pool_completion mcp;
  status = format_pool_status mcp;
}

unfoldable pub assess_worker_pools :
    List MachineConfigPoolProgressInsightStatus → List WorkerPoolDisplayData
assess_worker_pools [] = []
assess_worker_pools (mcp ∷ rest) =
    let pools = assess_worker_pools rest in
    if is_control_plane mcp.scope then pools else display_pool mcp ∷ pools
