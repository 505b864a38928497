-- ===== src/Cli/NodeTable.antt =====
-- cmd/oc-update-status/nodes.go: the table of a pool's nodes. The functions return the texts and
-- numbers that are printed. The text of an estimate is left out; it is empty only if there is no
-- estimate. A count of nodes is that of a slice's elements, which an int holds.
use openshift_update_experie.Prelude.{
  ℕ, suc, ℤ, pos, negsuc, String, Bool, true, false, not, ◌&&◌, ◌||◌, List, [], ◌∷◌, map, Option,
  none, some, if◌then◌else◌, ◌==◌, ltb, eqb, length,
}
use openshift_update_experie.Meta.{ConditionsApi}
use openshift_update_experie.Mco.{machine_config_pool_master}
use openshift_update_experie.Api.{NodeProgressInsightStatus}
use openshift_update_experie.Versions.{Float64, whole}
use openshift_update_experie.Cli.Nodes.{
  NodePhase, phase_state_draining, phase_state_updating, phase_state_rebooting, phase_state_paused,
  phase_state_pending, phase_state_updated, NodeAssessment, assessment_degraded,
  assessment_unavailable, assessment_progressing, assessment_excluded, assessment_outdated,
  assessment_completed, NodeDisplayData, assess_node,
}

-- `nodePhase.String`.
abbrev pub phase_text : NodePhase → String
phase_text phase_state_draining = "Draining"
phase_text phase_state_updating = "Updating"
phase_text phase_state_rebooting = "Rebooting"
phase_text phase_state_paused = "Paused"
phase_text phase_state_pending = "Pending"
phase_text phase_state_updated = "Updated"

-- `nodeAssessment.String`.
abbrev pub assessment_text : NodeAssessment → String
assessment_text assessment_degraded = "Degraded"
assessment_text assessment_unavailable = "Unavailable"
assessment_text assessment_progressing = "Progressing"
assessment_text assessment_excluded = "Excluded"
assessment_text assessment_outdated = "Outdated"
assessment_text assessment_completed = "Completed"

-- `poolDisplayData`.
pub record PoolDisplayData : Type 0 where
  pub name : String
  pub completion : ℤ
  pub nodes : List NodeDisplayData

-- What the column EST shows: a duration, a dash or a question mark.
pub data RowEstimate : Type 0 where
  remaining : ℕ → RowEstimate
  none_needed not_known : RowEstimate

pub record NodeRow : Type 0 where
  pub name : String
  pub assessment : String
  pub phase : String
  pub version : String
  pub estimate : RowEstimate
  pub message : String

-- The tests `== phaseStateDraining` and the like.
abbrev pub is_draining_phase : NodePhase → Bool
is_draining_phase phase_state_draining = true
is_draining_phase _ = false

abbrev pub is_paused_phase : NodePhase → Bool
is_paused_phase phase_state_paused = true
is_paused_phase _ = false

abbrev pub is_assessed_progressing : NodeAssessment → Bool
is_assessed_progressing assessment_progressing = true
is_assessed_progressing _ = false

abbrev is_assessed_excluded : NodeAssessment → Bool
is_assessed_excluded assessment_excluded = true
is_assessed_excluded _ = false

abbrev row_estimate : Option ℕ → Bool → NodeAssessment → RowEstimate
row_estimate (some d) updated assessment = remaining d
row_estimate none updated assessment =
    if updated || is_assessed_excluded assessment then none_needed else not_known

abbrev pub node_row : NodeDisplayData → NodeRow
node_row d = record {
  name = d.name;
  assessment = assessment_text d.assessment;
  phase = phase_text d.phase;
  version = if d.version == "" then "?" else d.version;
  estimate = row_estimate d.estimate d.is_updated d.assessment;
  message = d.message;
}

-- The counters of the nodes that are left out of the table.
pub record Omission : Type 0 where
  pub total : ℕ
  pub completed : ℕ
  pub available : ℕ
  pub progressing : ℕ
  pub outdated : ℕ
  pub draining : ℕ
  pub excluded : ℕ

abbrev pub no_omission : Omission
no_omission = record {
  total = 0;
  completed = 0;
  available = 0;
  progressing = 0;
  outdated = 0;
  draining = 0;
  excluded = 0;
}

-- `if cond { n++ }`.
abbrev pub add_if : Bool → ℕ → ℕ
add_if true n = suc n
add_if false n = n

abbrev pub omit_node : NodeDisplayData → Omission → Omission
omit_node d o = record {
  total = suc o.total;
  completed = add_if d.is_updated o.completed;
  outdated = add_if (not d.is_updated) o.outdated;
  available = add_if (not d.is_unavailable) o.available;
  draining = add_if (is_draining_phase d.phase) o.draining;
  excluded = add_if (is_paused_phase d.phase) o.excluded;
  progressing = add_if (is_assessed_progressing d.assessment) o.progressing;
}

-- The guards of the `continue` for the node at a position.
abbrev pub is_omitted : Bool → ℕ → ℕ → NodeDisplayData → Bool
is_omitted detailed max_lines i d =
    not detailed
    && not (ltb i max_lines)
    && (not d.is_degraded && (not d.is_unavailable || d.is_updating))

-- The loop of `WriteNodes` from a position on.
unfoldable pub write_rows : Bool → ℕ → ℕ → Omission → List NodeDisplayData → List NodeRow × Omission
write_rows detailed max_lines i o [] = ([], o)
write_rows detailed max_lines i o (d ∷ ds) =
    let omitted = is_omitted detailed max_lines i d in
    let rest = write_rows detailed max_lines (suc i) (if omitted then omit_node d o else o) ds in
    (if omitted then rest.0 else node_row d ∷ rest.0, rest.1)

pub data WrittenNodes : Type 0 where
  nothing_written : WrittenNodes
  all_updated_to : String → WrittenNodes
  control_plane_nodes : List NodeRow × Omission → WrittenNodes
  worker_pool_nodes : String → List NodeRow × Omission → WrittenNodes

abbrev is_hundred : ℤ → Bool
is_hundred (pos n) = eqb n 100
is_hundred (negsuc n) = false

abbrev write_some : PoolDisplayData → Bool → ℕ → NodeDisplayData → WrittenNodes
write_some pool detailed max_lines first =
    let rows = write_rows detailed max_lines 0 no_omission pool.nodes in
    if pool.name == machine_config_pool_master
    then (if is_hundred pool.completion
        then all_updated_to first.version
        else control_plane_nodes rows)
    else worker_pool_nodes pool.name rows

abbrev write_if_any : PoolDisplayData → Bool → ℕ → List NodeDisplayData → WrittenNodes
write_if_any pool detailed max_lines [] = nothing_written
write_if_any pool detailed max_lines (d ∷ ds) = write_some pool detailed max_lines d

-- `WriteNodes`. The line on the omitted nodes is printed if their total is not 0.
unfoldable pub write_nodes : PoolDisplayData → Bool → ℕ → WrittenNodes
unfolding write_rows
write_nodes pool detailed max_lines = write_if_any pool detailed max_lines pool.nodes

module _ {F : Type 0} (float : Float64 F) where
  -- `updated++` on a float64.
  abbrev pub count_updated : F → List NodeDisplayData → F
  count_updated n [] = n
  count_updated n (d ∷ ds) =
      count_updated (if d.is_updated then float.plus n (whole float 1) else n) ds

  abbrev pub pool_percentage : List NodeDisplayData → ℤ
  pool_percentage [] = pos 0
  pool_percentage (d ∷ ds) = float.to_int64 (
      float.mul (float.div (count_updated (whole float 0) (d ∷ ds)) (whole float (length (d ∷ ds))))
        (whole float 100))

  -- `assessPool`.
  unfoldable pub assess_pool :
      ConditionsApi → String → List NodeProgressInsightStatus → PoolDisplayData
  unfolding assess_node
  assess_pool api name insights =
      let nodes = map (assess_node api) insights in
      record { name = name; completion = pool_percentage nodes; nodes = nodes }
